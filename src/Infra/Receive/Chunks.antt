-- ===== src/Infra/Receive/Chunks.antt =====
-- Where the bytes of a stream are cut into chunks does not matter to `handle_received_data`.
use kac.Base.{
  ℕ, zero, suc, ◌≤◌, ◌<◌, ◌≡◌, refl, Bool, true, false, not, List, [], ◌∷◌, ◌++◌, arith, ltb,
  length, length-append, take, drop, if◌then◌else◌, if-Holds, Bool-cases, inl, inr, ap, ◌∙◌, sym,
}
use kac.Word.{add64}
use kac.Infra.Frames.{Message, header_of, is_valid}
use kac.Infra.Session.{Settings, Session, process_message, text_invalid_header}
use kac.Infra.Receive.{
  Client, Front, need_more_data, need_disconnect, complete, cut, front, accept, remove_client,
  disconnect_client, parse_loop, append,
}

module _ {A : Type 0} where
  pub take-append : (n : ℕ) (xs ys : List A) → n ≤ length xs → take n (xs ++ ys) ≡ take n xs
  take-append zero xs ys le = refl
  take-append (suc n) [] ys le = absurd (omega arith)
  take-append (suc n) (x ∷ xs) ys le = ap (x ∷◌) (take-append n xs ys (omega arith))

  pub drop-append : (n : ℕ) (xs ys : List A) → n ≤ length xs → drop n (xs ++ ys) ≡ drop n xs ++ ys
  drop-append zero xs ys le = refl
  drop-append (suc n) [] ys le = absurd (omega arith)
  drop-append (suc n) (x ∷ xs) ys le = drop-append n xs ys (omega arith)

  pub length-drop : (n : ℕ) (xs : List A) → length (drop n xs) ≤ length xs
  length-drop zero xs = omega arith
  length-drop (suc n) [] = omega arith
  length-drop (suc n) (x ∷ xs) = omega (arith, length-drop n xs)

-- What the front of a buffer says of a longer one.
pub data Extends (more : List ℕ) (bytes longer : List ℕ) : Front → Type 0 where
  waits : Extends more bytes longer need_more_data
  refused : front longer ≡ need_disconnect → Extends more bytes longer need_disconnect
  got :
      (message : Message) (rest : List ℕ)
      → length rest < length bytes
      → front longer ≡ complete message (rest ++ more)
      → Extends more bytes longer (complete message rest)

cut-Extends :
    (a b c d e f g h : ℕ) (bytes more : List ℕ)
    → Extends more
        (a ∷ b ∷ c ∷ d ∷ e ∷ f ∷ g ∷ h ∷ bytes)
        (a ∷ b ∷ c ∷ d ∷ e ∷ f ∷ g ∷ h ∷ (bytes ++ more))
        (cut (header_of a b c d e f g h) bytes)
unfolding front cut
cut-Extends a b c d e f g h bytes more =
    let header = header_of a b c d e f g h in
    let n = header.payload_length in
    if-Holds
      (λ (x : Front).
        Extends more (a ∷ b ∷ c ∷ d ∷ e ∷ f ∷ g ∷ h ∷ bytes)
          (a ∷ b ∷ c ∷ d ∷ e ∷ f ∷ g ∷ h ∷ (bytes ++ more)) x)
      (not (is_valid header)) (λ bad. refused (rw bad refl))
      (λ good.
        if-Holds
          (λ (x : Front).
            Extends more (a ∷ b ∷ c ∷ d ∷ e ∷ f ∷ g ∷ h ∷ bytes)
              (a ∷ b ∷ c ∷ d ∷ e ∷ f ∷ g ∷ h ∷ (bytes ++ more)) x)
          (ltb (length bytes) n) (λ short. waits)
          (λ long.
            let fits : n ≤ length bytes = ground (arith, long) in
            let still : ltb (length (bytes ++ more)) n ≡ false =
              ground (arith, fits, length-append bytes more) in
            got (record { header = header; payload = take n bytes }) (drop n bytes)
              (omega (arith, length-drop n bytes))
              (rw (good, still, take-append n bytes more fits, drop-append n bytes more fits)
                refl)))

pub front-Extends : (bytes more : List ℕ) → Extends more bytes (bytes ++ more) (front bytes)
unfolding front
front-Extends [] more = waits
front-Extends (a ∷ []) more = waits
front-Extends (a ∷ b ∷ []) more = waits
front-Extends (a ∷ b ∷ c ∷ []) more = waits
front-Extends (a ∷ b ∷ c ∷ d ∷ []) more = waits
front-Extends (a ∷ b ∷ c ∷ d ∷ e ∷ []) more = waits
front-Extends (a ∷ b ∷ c ∷ d ∷ e ∷ f ∷ []) more = waits
front-Extends (a ∷ b ∷ c ∷ d ∷ e ∷ f ∷ g ∷ []) more = waits
front-Extends (a ∷ b ∷ c ∷ d ∷ e ∷ f ∷ g ∷ h ∷ bytes) more = cut-Extends a b c d e f g h bytes more

-- more bytes for a client that is there
unfoldable pub extend : List ℕ → Client → Client
extend more client = if client.connected then append more client else client

pub extend-there :
    (more : List ℕ) (client : Client)
    → client.connected ≡ true
    → extend more client ≡ append more client
unfolding extend
extend-there more client on =
    if-Holds (λ (c : Client). c ≡ append more client) client.connected (λ e. refl)
      (λ gone. absurd (ground (arith, on, gone)))

pub extend-gone :
    (more : List ℕ) (client : Client) → client.connected ≡ false → extend more client ≡ client
unfolding extend
extend-gone more client gone =
    if-Holds (λ (c : Client). c ≡ client) client.connected (λ on. absurd (ground (arith, on, gone)))
      (λ e. refl)

module _ (settings : Settings) where
  -- the loop with fuel for one round more than it takes
  unfoldable pub run : Client → Client
  run client = parse_loop (suc (length client.recv_buf)) settings client

  pub accept-length :
      (message : Message) (rest : List ℕ) (client : Client)
      → length (accept settings message rest client).recv_buf ≤ length rest
  unfolding accept remove_client
  accept-length message rest client =
      if-Holds (λ (c : Client). length c.recv_buf ≤ length rest)
        ((process_message settings message client.session).0) (λ stays. omega arith)
        (λ goes. omega arith)

  -- what one round of the loop does, with `next` for the rounds that follow
  abbrev pub round : (Client → Client) → Client → Front → Client
  round next client need_more_data = client
  round next client need_disconnect = disconnect_client text_invalid_header client
  round next client (complete message rest) = next (accept settings message rest client)

  pub parse_loop-round :
      (n : ℕ) (client : Client)
      → client.connected ≡ true
      → parse_loop (suc n) settings client
        ≡ round (parse_loop n settings) client (front client.recv_buf)
  unfolding parse_loop
  parse_loop-round n client on =
      if-Holds (λ (c : Client). c ≡ round (parse_loop n settings) client (front client.recv_buf))
        (not client.connected) (λ gone. absurd (ground (arith, gone, on)))
        (λ here. same (front client.recv_buf))
    where
      same :
          (f : Front)
          → ◌≡◌ {A = Client}
              (elim f [
                | need_more_data ↦ client
                | need_disconnect ↦ disconnect_client text_invalid_header client
                | complete message rest ↦
                    parse_loop n settings (accept settings message rest client)
              ])
              (round (parse_loop n settings) client f)
      same need_more_data = refl
      same need_disconnect = refl
      same (complete message rest) = refl

  pub parse_loop-gone :
      (n : ℕ) (client : Client) → client.connected ≡ false → parse_loop n settings client ≡ client
  unfolding parse_loop
  parse_loop-gone zero client gone = refl
  parse_loop-gone (suc n) client gone =
      if-Holds (λ (c : Client). c ≡ client) (not client.connected) (λ e. refl)
        (λ here. absurd (ground (arith, gone, here)))

  -- Two ways to go on that agree on shorter buffers agree after a round.
  rounds-agree :
      (next1 next2 : Client → Client) (client : Client)
      → ((c : Client) → length c.recv_buf < length client.recv_buf → next1 c ≡ next2 c)
      → (f : Front) → Extends [] client.recv_buf (client.recv_buf ++ []) f
      → round next1 client f ≡ round next2 client f
  rounds-agree next1 next2 client h _ waits = refl
  rounds-agree next1 next2 client h _ (refused e) = refl
  rounds-agree next1 next2 client h _ (got message rest less e) =
      h (accept settings message rest client) (omega (arith, accept-length message rest client))

  -- More fuel than bytes in the buffer gives the same end.
  parse_loop-enough :
      (n m : ℕ) (client : Client)
      → length client.recv_buf < n
      → length client.recv_buf < m
      → parse_loop n settings client ≡ parse_loop m settings client
  parse_loop-enough zero m client small big = absurd (omega arith)
  parse_loop-enough (suc n) zero client small big = absurd (omega arith)
  parse_loop-enough (suc n) (suc m) client small big = elim (Bool-cases client.connected) [
    | inl on ↦
        parse_loop-round n client on
        ∙ rounds-agree (parse_loop n settings) (parse_loop m settings) client
            (λ c less. parse_loop-enough n m c (omega arith) (omega arith)) (front client.recv_buf)
            (front-Extends client.recv_buf [])
        ∙ sym (parse_loop-round m client on)
    | inr gone ↦ parse_loop-gone (suc n) client gone ∙ sym (parse_loop-gone (suc m) client gone)
  ]

  pub run-gone : (client : Client) → client.connected ≡ false → run client ≡ client
  unfolding run
  run-gone client = parse_loop-gone (suc (length client.recv_buf)) client

  run-round :
      (client : Client)
      → client.connected ≡ true
      → run client
        ≡ round (parse_loop (length client.recv_buf) settings) client (front client.recv_buf)
  unfolding run
  run-round client = parse_loop-round (length client.recv_buf) client

  pub run-complete :
      (client : Client) (message : Message) (rest : List ℕ)
      → client.connected ≡ true
      → front client.recv_buf ≡ complete message rest
      → length rest < length client.recv_buf
      → run client ≡ run (accept settings message rest client)
  unfolding run
  run-complete client message rest on e less =
      parse_loop-round (length client.recv_buf) client on
      ∙ ap (round (parse_loop (length client.recv_buf) settings) client) e
      ∙ parse_loop-enough (length client.recv_buf)
          (suc (length (accept settings message rest client).recv_buf))
          (accept settings message rest client) (omega (arith, accept-length message rest client))
          (omega arith)

  -- `accept` after the message was processed
  abbrev pub settle : List ℕ → Client → Bool × Session → Client
  settle rest client (stays, after) =
      let counted : Client = record client {
        recv_buf = rest;
        messages_received = add64 client.messages_received 1;
        session = after;
      } in
      if stays then counted else remove_client counted

  pub accept-extend :
      (message : Message) (rest more : List ℕ) (client : Client)
      → client.connected ≡ true
      → accept settings message (rest ++ more) (append more client)
        ≡ extend more (accept settings message rest client)
  unfolding accept append remove_client
  accept-extend message rest more client on =
      settled (process_message settings message client.session)
    where
      settled :
          (answer : Bool × Session)
          → settle (rest ++ more) (append more client) answer
            ≡ extend more (settle rest client answer)
      settled (true, after) = sym (extend-there more (settle rest client (true, after)) on)
      settled (false, after) = sym (extend-gone more (settle rest client (false, after)) refl)

  -- One round of `run-extend`, for the bytes that the front of the buffer is read from.
  append-run :
      (client : Client) (more : List ℕ)
      → client.connected ≡ true
      → ((c : Client)
          → length c.recv_buf < length client.recv_buf
          → run (extend more c) ≡ run (extend more (run c)))
      → (f : Front) → front client.recv_buf ≡ f
      → Extends more client.recv_buf (client.recv_buf ++ more) f
      → run (append more client) ≡ run (extend more (run client))
  unfolding append disconnect_client remove_client
  append-run client more on h _ e waits =
      ap run (sym (extend-there more client on))
      ∙ ap (λ (c : Client). run (extend more c))
          (sym (
            run-round client on
            ∙ ap (round (parse_loop (length client.recv_buf) settings) client) e))
  append-run client more on h _ e (refused longer) =
      let ended = disconnect_client text_invalid_header client in
      run-round (append more client) on
      ∙ ap (round (parse_loop (length (client.recv_buf ++ more)) settings) (append more client))
          longer
      ∙ sym (run-gone ended refl)
      ∙ ap run (sym (extend-gone more ended refl))
      ∙ ap (λ (c : Client). run (extend more c))
          (sym (
            run-round client on
            ∙ ap (round (parse_loop (length client.recv_buf) settings) client) e))
  append-run client more on h _ e (got message rest less longer) =
      let taken = accept settings message rest client in
      run-complete (append more client) message (rest ++ more) on longer
        (omega (arith, length-append rest more, length-append client.recv_buf more, less))
      ∙ ap run (accept-extend message rest more client on)
      ∙ h taken (omega (arith, accept-length message rest client))
      ∙ ap (λ (c : Client). run (extend more c)) (sym (run-complete client message rest on e less))

  -- Bytes that come later, after what is there was parsed, lead to the same end.
  pub run-extend :
      (n : ℕ) (client : Client) (more : List ℕ)
      → length client.recv_buf < n
      → run (extend more client) ≡ run (extend more (run client))
  run-extend zero client more small = absurd (omega arith)
  run-extend (suc n) client more small = elim (Bool-cases client.connected) [
    | inl on ↦
        ap run (extend-there more client on)
        ∙ append-run client more on (λ c less. run-extend n c more (omega arith))
            (front client.recv_buf) refl (front-Extends client.recv_buf more)
    | inr gone ↦ ap (λ (c : Client). run (extend more c)) (sym (run-gone client gone))
  ]
