-- ===== src/Infra/Receive/Whole.antt =====
-- A buffer that holds the bytes of messages is parsed into these messages.
use kac.Base.{
  ℕ, zero, suc, ◌+◌, ◌*◌, ◌/◌, ◌%◌, ◌^◌, ◌≤◌, ◌<◌, ◌≡◌, refl, Bool, true, false, not, List, [], ◌∷◌,
  ◌++◌, arith, ltb, length, length-append, take, drop, if◌then◌else◌, if-Holds, Bool-cases, inl,
  inr, ap, ap₂, ◌∙◌, sym, append-nil, subst,
}
use kac.Infra.Frames.{Message, MessageHeader, header_of, header_bytes, is_valid, serialize}
use kac.Infra.Session.{Settings, Session, process_message}
use kac.Infra.Receive.{
  Client, Front, need_more_data, need_disconnect, complete, cut, front, accept, remove_client,
  disconnect_client, parse_loop, append,
}
use kac.Infra.Receive.Chunks.{
  extend, run, run-extend, run-complete, run-gone, extend-there, extend-gone, accept-extend,
  accept-length, parse_loop-round, parse_loop-gone, round, settle, Extends, front-Extends, waits,
  refused, got,
}

-- A message as the constructors of `Message` make it: a valid header with the length of the payload.
pub record IsFrame (m : Message) : Type 0 where
  pub marked : is_valid m.header ≡ true
  pub measured : m.header.payload_length ≡ length m.payload
  pub fits : length m.payload < 2 ^ 32

pub data AllFrames : List Message → Type 0 where
  nil : AllFrames []
  cons : {m : Message} {ms : List Message} → IsFrame m → AllFrames ms → AllFrames (m ∷ ms)

-- the bytes of messages, one after the other
unfoldable pub wire : List Message → List ℕ
wire [] = []
wire (m ∷ ms) = serialize m ++ wire ms

-- messages taken one by one by a client that is there
unfoldable pub accept_all : Settings → List Message → Client → Client
accept_all settings [] client = client
accept_all settings (m ∷ ms) client =
    accept_all settings ms (if client.connected then accept settings m [] client else client)

take-exact : {A : Type 0} (xs ys : List A) → take (length xs) (xs ++ ys) ≡ xs
take-exact [] ys = refl
take-exact (x ∷ xs) ys = ap (x ∷◌) (take-exact xs ys)

drop-exact : {A : Type 0} (xs ys : List A) → drop (length xs) (xs ++ ys) ≡ ys
drop-exact [] ys = refl
drop-exact (x ∷ xs) ys = drop-exact xs ys

-- The four bytes of a length give it back.
length_bytes :
    (n : ℕ)
    → n < 2 ^ 32
    → n % 256 + 256 * (n / 256 % 256) + 65536 * (n / 65536 % 256) + 16777216 * (n / 16777216 % 256)
      ≡ n
length_bytes n small = omega arith

header_of-header_bytes :
    (h : MessageHeader)
    → h.payload_length < 2 ^ 32
    → header_of h.magic0 h.magic1 h.version h.msg_type
        (h.payload_length % 256)
        (h.payload_length / 256 % 256)
        (h.payload_length / 65536 % 256)
        (h.payload_length / 16777216 % 256)
      ≡ h
unfolding header_of
header_of-header_bytes h small =
    ap (λ (n : ℕ). record h { payload_length = n }) (length_bytes h.payload_length small)

cut-frame :
    (m : Message) (rest : List ℕ) → IsFrame m → cut m.header (m.payload ++ rest) ≡ complete m rest
unfolding cut
cut-frame m rest f =
    let n = m.header.payload_length in
    let payload =
      ap (λ (k : ℕ). take k (m.payload ++ rest)) f.measured ∙ take-exact m.payload rest in
    let others =
      ap (λ (k : ℕ). drop k (m.payload ++ rest)) f.measured ∙ drop-exact m.payload rest in
    if-Holds (λ (x : Front). x ≡ complete m rest) (not (is_valid m.header))
      (λ bad. absurd (ground (arith, bad, f.marked)))
      (λ good.
        if-Holds (λ (x : Front). x ≡ complete m rest) (ltb (length (m.payload ++ rest)) n)
          (λ short. absurd (ground (arith, short, f.measured, length-append m.payload rest)))
          (λ long. ap₂ (λ (p q : List ℕ). complete (record m { payload = p }) q) payload others))

front-serialize :
    (m : Message) (rest : List ℕ) → IsFrame m → front (serialize m ++ rest) ≡ complete m rest
unfolding front serialize header_bytes
front-serialize m rest f =
    ap (λ (h : MessageHeader). cut h (m.payload ++ rest))
      (header_of-header_bytes m.header (omega (arith, f.measured, f.fits)))
    ∙ cut-frame m rest f

length-serialize : (m : Message) → length (serialize m) ≡ 8 + length m.payload
unfolding serialize header_bytes
length-serialize m = omega arith

module _ (settings : Settings) where
  -- the buffer before does not matter to `accept`
  accept-append :
      (m : Message) (rest : List ℕ) (client : Client) (x y : List ℕ)
      → accept settings m rest (append x client) ≡ accept settings m rest (append y client)
  unfolding accept append remove_client
  accept-append m rest client x y = settled (process_message settings m client.session)
    where
      settled :
          (answer : Bool × Session)
          → settle settings rest (append x client) answer
            ≡ settle settings rest (append y client) answer
      settled (true, after) = refl
      settled (false, after) = refl

  no_bytes : (xs : List ℕ) → length xs ≤ 0 → xs ≡ []
  no_bytes [] le = refl
  no_bytes (x ∷ xs) le = absurd (omega arith)

  pub extend-nil : (client : Client) → extend [] client ≡ client
  unfolding extend append
  extend-nil client =
      if-Holds (λ (c : Client). c ≡ client) client.connected
        (λ on. ap (λ (b : List ℕ). record client { recv_buf = b }) (append-nil client.recv_buf))
        (λ gone. refl)

  pub run-empty : (client : Client) → client.recv_buf ≡ [] → run settings client ≡ client
  unfolding run front
  run-empty client empty = elim (Bool-cases client.connected) [
    | inl on ↦
        parse_loop-round settings (length client.recv_buf) client on
        ∙ ap
            (λ (b : List ℕ).
              round settings (parse_loop (length client.recv_buf) settings) client (front b))
            empty
    | inr gone ↦ run-gone settings client gone
  ]

  accept_all-gone :
      (ms : List Message) (client : Client)
      → client.connected ≡ false
      → accept_all settings ms client ≡ client
  unfolding accept_all
  accept_all-gone [] client gone = refl
  accept_all-gone (m ∷ ms) client gone =
      if-Holds (λ (c : Client). accept_all settings ms c ≡ client) client.connected
        (λ on. absurd (ground (arith, on, gone))) (λ e. accept_all-gone ms client gone)

  -- a buffer that holds exactly the bytes of messages
  pub run-wire :
      (ms : List Message) (client : Client)
      → AllFrames ms
      → client.recv_buf ≡ []
      → run settings (extend (wire ms) client) ≡ accept_all settings ms client
  unfolding wire accept_all append
  run-wire [] client nil empty = ap (run settings) (extend-nil client) ∙ run-empty client empty
  run-wire (m ∷ ms) client (cons f fs) empty = elim (Bool-cases client.connected) [
    | inl on ↦
        let filled : client.recv_buf ++ (serialize m ++ wire ms) ≡ serialize m ++ wire ms =
          ap (λ (b : List ℕ). b ++ (serialize m ++ wire ms)) empty in
        ap (run settings) (extend-there (serialize m ++ wire ms) client on)
        ∙ run-complete settings (append (serialize m ++ wire ms) client) m (wire ms) on
            (ap front filled ∙ front-serialize m (wire ms) f)
            (omega
              (arith, ap length filled, length-append (serialize m) (wire ms), length-serialize m))
        ∙ ap (run settings) (accept-append m (wire ms) client (serialize m ++ wire ms) (wire ms))
        ∙ ap (run settings) (accept-extend settings m [] (wire ms) client on)
        ∙ run-wire ms (accept settings m [] client) fs
            (no_bytes (accept settings m [] client).recv_buf (accept-length settings m [] client))
        ∙ if-Holds
            (λ (c : Client).
              accept_all settings ms (accept settings m [] client) ≡ accept_all settings ms c)
            client.connected (λ e. refl) (λ gone. absurd (ground (arith, on, gone)))
    | inr gone ↦
        ap (run settings) (extend-gone (serialize m ++ wire ms) client gone)
        ∙ run-gone settings client gone
        ∙ sym (accept_all-gone (m ∷ ms) client gone)
  ]

  pub run-idle : (client : Client) → run settings client ≡ run settings (run settings client)
  run-idle client =
      ap (run settings) (sym (extend-nil client))
      ∙ run-extend settings (suc (length client.recv_buf)) client [] (omega arith)
      ∙ ap (run settings) (extend-nil (run settings client))

  round-length :
      (next : Client → Client) (client : Client)
      → ((c : Client) → length (next c).recv_buf ≤ length c.recv_buf)
      → (f : Front) → Extends [] client.recv_buf (client.recv_buf ++ []) f
      → length (round settings next client f).recv_buf ≤ length client.recv_buf
  unfolding disconnect_client remove_client
  round-length next client h _ waits = omega arith
  round-length next client h _ (refused e) = omega arith
  round-length next client h _ (got message rest less e) =
      let taken = accept settings message rest client in
      omega (arith, h taken, accept-length settings message rest client)

  pub parse_loop-length :
      (n : ℕ) (client : Client)
      → length (parse_loop n settings client).recv_buf ≤ length client.recv_buf
  unfolding parse_loop
  parse_loop-length zero client = omega arith
  parse_loop-length (suc n) client = elim (Bool-cases client.connected) [
    | inl on ↦
        subst (λ (c : Client). length c.recv_buf ≤ length client.recv_buf)
          (sym (parse_loop-round settings n client on))
          (round-length (parse_loop n settings) client (parse_loop-length n) (front client.recv_buf)
            (front-Extends client.recv_buf []))
    | inr gone ↦
        subst (λ (c : Client). length c.recv_buf ≤ length client.recv_buf)
          (sym (parse_loop-gone settings (suc n) client gone)) (omega arith)
  ]

  -- The count of bytes plays no part in the loop.
  accept-bytes :
      (k : ℕ) (m : Message) (rest : List ℕ) (client : Client)
      → accept settings m rest (record client { bytes_received = k })
        ≡ record (accept settings m rest client) { bytes_received = k }
  unfolding accept remove_client
  accept-bytes k m rest client = settled (process_message settings m client.session)
    where
      settled :
          (answer : Bool × Session)
          → settle settings rest (record client { bytes_received = k }) answer
            ≡ record (settle settings rest client answer) { bytes_received = k }
      settled (true, after) = refl
      settled (false, after) = refl

  round-bytes :
      (k : ℕ) (next : Client → Client) (client : Client)
      → ((c : Client)
          → next (record c { bytes_received = k }) ≡ record (next c) { bytes_received = k })
      → (f : Front)
      → round settings next (record client { bytes_received = k }) f
        ≡ record (round settings next client f) { bytes_received = k }
  unfolding disconnect_client remove_client
  round-bytes k next client h need_more_data = refl
  round-bytes k next client h need_disconnect = refl
  round-bytes k next client h (complete m rest) =
      ap next (accept-bytes k m rest client) ∙ h (accept settings m rest client)

  pub parse_loop-bytes :
      (n k : ℕ) (client : Client)
      → parse_loop n settings (record client { bytes_received = k })
        ≡ record (parse_loop n settings client) { bytes_received = k }
  unfolding parse_loop disconnect_client remove_client
  parse_loop-bytes zero k client = refl
  parse_loop-bytes (suc n) k client = elim (Bool-cases client.connected) [
    | inl on ↦
        parse_loop-round settings n (record client { bytes_received = k }) on
        ∙ round-bytes k (parse_loop n settings) client (λ c. parse_loop-bytes n k c)
            (front client.recv_buf)
        ∙ ap (λ (c : Client). record c { bytes_received = k })
            (sym (parse_loop-round settings n client on))
    | inr gone ↦
        parse_loop-gone settings (suc n) (record client { bytes_received = k }) gone
        ∙ ap (λ (c : Client). record c { bytes_received = k })
            (sym (parse_loop-gone settings (suc n) client gone))
  ]
