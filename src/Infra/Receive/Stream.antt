-- ===== src/Infra/Receive/Stream.antt =====
-- Messages arrive whole and in order, whatever the chunks that their bytes come in.
use kac.Base.{
  ℕ, suc, ◌+◌, ◌≤◌, ◌≡◌, refl, Bool, true, false, not, List, [], ◌∷◌, ◌++◌, arith, ltb, length,
  length-append, if-Holds, Bool-cases, inl, inr, ap, ◌∙◌, sym, append_assoc,
}
use kac.Word.{add64}
use kac.Infra.Frames.{Message}
use kac.Infra.Session.{Settings}
use kac.Infra.Receive.{Client, append, handle_received_data, receive_all}
use kac.Infra.Receive.Chunks.{extend, run, run-extend, extend-there, extend-gone}
use kac.Infra.Receive.Whole.{
  AllFrames, wire, accept_all, extend-nil, run-empty, run-wire, run-idle, parse_loop-length,
  parse_loop-bytes,
}

unfoldable pub flat : List (List ℕ) → List ℕ
flat [] = []
flat (bytes ∷ chunks) = bytes ++ flat chunks

-- the client without its count of bytes
unfoldable pub but_bytes : Client → Client
but_bytes client = record client { bytes_received = 0 }

module _ (settings : Settings) where
  -- a chunk that fits is put to the buffer and parsed
  handle-fits :
      (most : ℕ) (bytes : List ℕ) (client : Client)
      → client.connected ≡ true
      → length client.recv_buf + length bytes ≤ most
      → (handle_received_data settings most bytes client).1
        ≡ run settings (record (append bytes client) {
          bytes_received = add64 client.bytes_received (length bytes);
        })
  unfolding handle_received_data run append
  handle-fits most bytes client on small =
      let counted : Client = record (append bytes client) {
        bytes_received = add64 client.bytes_received (length bytes);
      } in
      let P : Bool × Client → Type 0 = λ answer. answer.1 ≡ run settings counted in
      if-Holds P (not client.connected) (λ gone. absurd (ground (arith, on, gone)))
        (λ here.
          if-Holds P (ltb most (length (client.recv_buf ++ bytes)))
            (λ large. absurd (ground (arith, large, small, length-append client.recv_buf bytes)))
            (λ fits. refl))

  handle-gone :
      (most : ℕ) (bytes : List ℕ) (client : Client)
      → client.connected ≡ false
      → (handle_received_data settings most bytes client).1 ≡ client
  unfolding handle_received_data
  handle-gone most bytes client gone =
      if-Holds (λ (answer : Bool × Client). answer.1 ≡ client) (not client.connected) (λ e. refl)
        (λ here. absurd (ground (arith, gone, here)))

  run-length : (client : Client) → length (run settings client).recv_buf ≤ length client.recv_buf
  unfolding run
  run-length client = parse_loop-length settings (suc (length client.recv_buf)) client

  run-bytes :
      (k : ℕ) (client : Client)
      → run settings (record client { bytes_received = k })
        ≡ record (run settings client) { bytes_received = k }
  unfolding run
  run-bytes k client = parse_loop-bytes settings (suc (length client.recv_buf)) k client

  -- The chunks one by one and all bytes at once end alike.
  receive_all-flat :
      (most : ℕ) (chunks : List (List ℕ)) (client : Client)
      → run settings client ≡ client
      → length client.recv_buf + length (flat chunks) ≤ most
      → but_bytes (receive_all settings most chunks client)
        ≡ but_bytes (run settings (extend (flat chunks) client))
  unfolding receive_all flat but_bytes append
  receive_all-flat most [] client idle small =
      ap but_bytes (sym idle ∙ ap (run settings) (sym (extend-nil settings client)))
  receive_all-flat most (bytes ∷ chunks) client idle small = elim (Bool-cases client.connected) [
    | inl on ↦
        let filled : Client = append bytes client in
        let k = add64 client.bytes_received (length bytes) in
        let counted : Client = record filled { bytes_received = k } in
        let rest = flat chunks in
        ap (λ (c : Client). but_bytes (receive_all settings most chunks c))
          (handle-fits most bytes client on (omega (arith, small, length-append bytes rest)))
        ∙ receive_all-flat most chunks (run settings counted) (sym (run-idle settings counted)) (
            omega (
              arith,
              small,
              length-append bytes rest,
              length-append client.recv_buf bytes,
              run-length counted,
            ))
        ∙ ap but_bytes (
            sym (run-extend settings (suc (length counted.recv_buf)) counted rest (omega arith))
            ∙ ap (run settings) (extend-there rest counted on)
            ∙ run-bytes k (append rest filled))
        ∙ ap (λ (b : List ℕ). but_bytes (run settings (record client { recv_buf = b })))
            (append_assoc client.recv_buf bytes rest)
        ∙ ap (λ (c : Client). but_bytes (run settings c))
            (sym (extend-there (bytes ++ rest) client on))
    | inr gone ↦
        ap (λ (c : Client). but_bytes (receive_all settings most chunks c))
          (handle-gone most bytes client gone)
        ∙ receive_all-flat most chunks client idle
            (omega (arith, small, length-append bytes (flat chunks)))
        ∙ ap (λ (c : Client). but_bytes (run settings c))
            (extend-gone (flat chunks) client gone
              ∙ sym (extend-gone (bytes ++ flat chunks) client gone))
  ]

-- The bytes of messages that fit the size limit together, cut into chunks in any way, lead a client
-- with an empty buffer where the messages lead that are taken one by one, until one of them ends the
-- connection; only the count of bytes is left aside.
pub receive_all-frames :
    (settings : Settings) (most : ℕ) (ms : List Message) (chunks : List (List ℕ)) (client : Client)
    → AllFrames ms
    → flat chunks ≡ wire ms
    → client.recv_buf ≡ []
    → length (wire ms) ≤ most
    → but_bytes (receive_all settings most chunks client)
      ≡ but_bytes (accept_all settings ms client)
receive_all-frames settings most ms chunks client fs same empty small =
    receive_all-flat settings most chunks client (run-empty settings client empty)
      (omega (arith, ap length same, ap length empty, small))
    ∙ ap (λ (b : List ℕ). but_bytes (run settings (extend b client))) same
    ∙ ap but_bytes (run-wire settings ms client fs empty)
