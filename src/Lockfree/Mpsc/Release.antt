-- ===== src/Lockfree/Mpsc/Release.antt =====
-- The consumer of an `MPSCQueue` gives the slot of the oldest item back for the next round.
use kac.Base.{
  ℕ, ◌+◌, ◌%◌, ◌^◌, ◌≤◌, ◌<◌, ◌≡◌, ◌≢◌, ◌⊎◌, inl, inr, sym, ap, ◌∙◌, List, [], ◌∷◌, ◌++◌, arith,
  get_or, length-append, get_or-append_left, get_or-append_last,
}
use native.Mathlib.Nat.{add-mod_right}
use kac.Lockfree.Mpsc.{
  Queue, Producer, outside, at_turn, at_cas, reloading, claimed, filled, returned, update,
}
use kac.Lockfree.Mpsc.Inv.{
  Slot, published, taken, free, Owned, ProducerOk, Ready, Sound, apart, update_same, update_other,
}

module _ {A : Type 0} (filler : A) (k : ℕ) {q : Queue A} {log out : List A}
    (v : Sound filler k q log out) (ready : Ready filler k q) where
  abbrev pub after_release : Queue A
  after_release = record q {
    turn = update q.turn (q.tail % 2 ^ k) (q.tail + 2 ^ k);
    tail = q.tail + 1;
  }

  kept :
      (p : ℕ)
      → q.tail < p
      → p < q.tail + 2 ^ k
      → after_release.turn (p % 2 ^ k) ≡ q.turn (p % 2 ^ k)
  kept p lo hi =
      update_other q.turn (q.tail % 2 ^ k) (p % 2 ^ k) (q.tail + 2 ^ k)
        (apart filler k q.tail q.tail p (omega arith) (omega arith) (omega arith) hi (omega arith))

  order : (a b : ℕ) → a ≤ b → (a ≡ b) ⊎ (a < b)
  order a b h = omega arith

  release-slots :
      (p : ℕ) → q.tail + 1 ≤ p → p < q.tail + 1 + 2 ^ k → Slot filler k after_release log p
  release-slots p lo hi = elim (order p (q.tail + 2 ^ k) (omega arith)) [
    | inl last ↦ free (omega (arith, last, v.bounded)) (
        update_same q.turn (q.tail % 2 ^ k) (p % 2 ^ k) (q.tail + 2 ^ k)
          (sym (add-mod_right q.tail (2 ^ k)) ∙ ap (λ (n : ℕ). n % 2 ^ k) (sym last))
        ∙ sym last)
    | inr lt ↦ go lt (v.slots p (omega arith) lt)
  ]
    where
      go : p < q.tail + 2 ^ k → Slot filler k q log p → Slot filler k after_release log p
      go lt (published h t d) = published h (kept p (omega arith) lt ∙ t) d
      go lt (taken h t) = taken h (kept p (omega arith) lt ∙ t)
      go lt (free h t) = free h (kept p (omega arith) lt ∙ t)

  pub release-Sound :
      (x : A) → x ≡ get_or log q.tail filler → Sound filler k after_release log (out ++ x ∷ [])
  release-Sound x e = record {
    masked = v.masked;
    sized = v.sized;
    counted = v.counted;
    behind = omega (arith, ready.0);
    bounded = omega (arith, v.bounded);
    no_wrap = v.no_wrap;
    slots = release-slots;
    gone = omega (arith, v.gone, length-append out (x ∷ []));
    in_order = λ p lt. elim (order p q.tail (omega arith)) [
      | inl last ↦
          get_or-append_last out x p filler (omega (arith, last, v.gone))
          ∙ e
          ∙ ap (λ (n : ℕ). get_or log n filler) (sym last)
      | inr before ↦
          get_or-append_left out (x ∷ []) p filler (omega (arith, before, v.gone))
          ∙ v.in_order p before
    ];
  }

  release-Owned :
      {item : A} {p : ℕ} → Owned filler k q log item p → Owned filler k after_release log item p
  release-Owned {p = p} o = record {
    from_tail = above;
    to_head = o.to_head;
    turn_of = kept p (omega (arith, above)) (omega (arith, o.to_head, v.bounded)) ∙ o.turn_of;
    logged = o.logged;
  }
    where
      not_tail : p ≢ q.tail
      not_tail e = omega (arith, ready.1, o.turn_of, ap (λ (n : ℕ). q.turn (n % 2 ^ k)) e)

      above : q.tail + 1 ≤ p
      above = omega (arith, o.from_tail, not_tail)

  pub release-ProducerOk :
      (w : Producer A) → ProducerOk filler k q log w → ProducerOk filler k after_release log w
  release-ProducerOk outside ok = tt
  release-ProducerOk (at_turn item p) ok = ok
  release-ProducerOk (at_cas item p) ok = (ok.0, λ e. omega (arith, ok.1 e))
  release-ProducerOk (reloading item) ok = tt
  release-ProducerOk (claimed item p) ok = release-Owned ok
  release-ProducerOk (filled item p) ok = (release-Owned ok.0, ok.1)
  release-ProducerOk (returned done) ok = tt
