-- ===== src/Lockfree/Mpsc/Win.antt =====
-- A producer of an `MPSCQueue` wins a position: what that leaves as it was.
use kac.Base.{
  ℕ, ◌+◌, ◌%◌, ◌^◌, ◌≤◌, ◌<◌, ◌≡◌, ◌⊎◌, inl, inr, sym, ◌∙◌, List, [], ◌∷◌, ◌++◌, arith,
  length-append, get_or-append_left, get_or-append_last,
}
use kac.Word.{word}
use kac.Lockfree.Mpsc.{
  Queue, Producer, Consumer, outside, at_turn, at_cas, reloading, claimed, filled, returned,
  resting, at_take, at_release, popped,
}
use kac.Lockfree.Mpsc.Inv.{Slot, published, taken, free, Owned, ProducerOk, ConsumerOk, Sound}

module _ {A : Type 0} (filler : A) (k : ℕ) {q : Queue A} {log out : List A}
    (v : Sound filler k q log out) where
  -- A producer wins the position `head`.
  abbrev pub after_win : Queue A
  after_win = record q { head = q.head + 1 }

  module _ (x : A) (room : q.head < q.tail + 2 ^ k) (few : q.head + 1 + 2 ^ k < word) where
    win-slots :
        (p : ℕ) → q.tail ≤ p → p < q.tail + 2 ^ k → Slot filler k after_win (log ++ x ∷ []) p
    win-slots p lo hi = go (v.slots p lo hi)
      where
        order : (a b : ℕ) → a ≤ b → (a ≡ b) ⊎ (a < b)
        order a b h = omega arith

        go : Slot filler k q log p → Slot filler k after_win (log ++ x ∷ []) p
        go (published lt t d) =
            published (omega arith) t
              (d ∙ sym (get_or-append_left log (x ∷ []) p filler (omega (arith, v.counted))))
        go (taken lt t) = taken (omega arith) t
        go (free le t) = elim (order q.head p le) [
          | inl here ↦ taken (omega arith) t
          | inr above ↦ free (omega arith) t
        ]

    pub win-Sound : Sound filler k after_win (log ++ x ∷ []) out
    win-Sound = record {
      masked = v.masked;
      sized = v.sized;
      counted = omega (arith, v.counted, length-append log (x ∷ []));
      behind = omega (arith, v.behind);
      bounded = omega arith;
      no_wrap = omega arith;
      slots = win-slots;
      gone = v.gone;
      in_order = λ p lt.
          v.in_order p lt
          ∙ sym (get_or-append_left log (x ∷ []) p filler (omega (arith, v.counted, v.behind)));
    }

    win-Owned :
        {item : A} {p : ℕ}
        → Owned filler k q log item p
        → Owned filler k after_win (log ++ x ∷ []) item p
    win-Owned {p = p} o = record {
      from_tail = o.from_tail;
      to_head = omega (arith, o.to_head);
      turn_of = o.turn_of;
      logged =
          get_or-append_left log (x ∷ []) p filler (omega (arith, o.to_head, v.counted)) ∙ o.logged;
    }

    pub win-new : Owned filler k after_win (log ++ x ∷ []) x q.head
    win-new = record {
      from_tail = v.behind;
      to_head = omega arith;
      turn_of = at_head (v.slots q.head v.behind room);
      logged = get_or-append_last log x q.head filler (sym v.counted);
    }
      where
        at_head : Slot filler k q log q.head → q.turn (q.head % 2 ^ k) ≡ q.head
        at_head (published lt t d) = absurd (omega arith)
        at_head (taken lt t) = t
        at_head (free le t) = t

    pub win-ProducerOk :
        (r : Producer A)
        → ProducerOk filler k q log r
        → ProducerOk filler k after_win (log ++ x ∷ []) r
    win-ProducerOk outside ok = tt
    win-ProducerOk (at_turn item p) ok = omega arith
    win-ProducerOk (at_cas item p) ok = (omega (arith, ok.0), λ e. absurd (omega (arith, ok.0)))
    win-ProducerOk (reloading item) ok = tt
    win-ProducerOk (claimed item p) ok = win-Owned ok
    win-ProducerOk (filled item p) ok = (win-Owned ok.0, ok.1)
    win-ProducerOk (returned done) ok = tt

    pub win-ConsumerOk :
        (c : Consumer A)
        → ConsumerOk filler k q log c
        → ConsumerOk filler k after_win (log ++ x ∷ []) c
    win-ConsumerOk resting ok = tt
    win-ConsumerOk at_take ok = (omega (arith, ok.0), ok.1)
    win-ConsumerOk (at_release item) ok = (
      (omega (arith, ok.0.0), ok.0.1),
      ok.1 ∙ sym (get_or-append_left log (x ∷ []) q.tail filler (omega (arith, ok.0.0, v.counted))),
    )
    win-ConsumerOk (popped result) ok = tt
