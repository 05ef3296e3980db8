-- ===== src/Lockfree/Mpsc/Publish.antt =====
-- A producer of an `MPSCQueue` that owns a position fills its slot and hands it over.
use kac.Base.{
  ℕ, ◌+◌, ◌%◌, ◌^◌, ◌≤◌, ◌<◌, ◌≡◌, ◌≢◌, ◌⊎◌, inl, inr, refl, sym, ap, subst, ◌∙◌, some, List, arith,
}
use kac.Bits.{pow2_pos}
use kac.Lockfree.Mpsc.{
  Queue, Producer, Consumer, outside, at_turn, at_cas, reloading, claimed, filled, returned,
  resting, at_take, at_release, popped, update,
}
use kac.Lockfree.Mpsc.Inv.{
  Slot, published, taken, free, Owned, ProducerOk, ConsumerOk, Ready, owns, Sound, apart,
  update_same, update_other,
}

module _ {A : Type 0} (filler : A) (k : ℕ) {q : Queue A} {log out : List A}
    (v : Sound filler k q log out) (x : A) (r : ℕ) (mine : Owned filler k q log x r) where
  -- Slots of other positions that are in use.
  other_slot : (p : ℕ) → q.tail ≤ p → p < q.tail + 2 ^ k → p ≢ r → r % 2 ^ k ≢ p % 2 ^ k
  other_slot p lo hi ne e =
      apart filler k q.tail p r lo hi mine.from_tail (omega (arith, mine.to_head, v.bounded)) ne
        (sym e)

  order : (a b : ℕ) → (a ≡ b) ⊎ (a ≢ b)
  order a b = omega arith

  -- `new (&slot.data) T(item)`
  abbrev pub after_fill : Queue A
  after_fill = record q { data_of = update q.data_of (r % 2 ^ k) x }

  fill-slots : (p : ℕ) → q.tail ≤ p → p < q.tail + 2 ^ k → Slot filler k after_fill log p
  fill-slots p lo hi = elim (order p r) [
    | inl e ↦
        taken (omega (arith, e, mine.to_head))
          (ap (λ (n : ℕ). q.turn (n % 2 ^ k)) e ∙ mine.turn_of ∙ sym e)
    | inr ne ↦ go ne (v.slots p lo hi)
  ]
    where
      go : p ≢ r → Slot filler k q log p → Slot filler k after_fill log p
      go ne (published lt t d) =
          published lt t
            (update_other q.data_of (r % 2 ^ k) (p % 2 ^ k) x (other_slot p lo hi ne) ∙ d)
      go ne (taken lt t) = taken lt t
      go ne (free le t) = free le t

  pub fill-Sound : Sound filler k after_fill log out
  fill-Sound = record {
    masked = v.masked;
    sized = v.sized;
    counted = v.counted;
    behind = v.behind;
    bounded = v.bounded;
    no_wrap = v.no_wrap;
    slots = fill-slots;
    gone = v.gone;
    in_order = v.in_order;
  }

  fill-Owned :
      {item : A} {p : ℕ} → Owned filler k q log item p → Owned filler k after_fill log item p
  fill-Owned o = record {
    from_tail = o.from_tail;
    to_head = o.to_head;
    turn_of = o.turn_of;
    logged = o.logged;
  }

  pub fill-new : Owned filler k after_fill log x r × (after_fill.data_of (r % 2 ^ k) ≡ x)
  fill-new = (fill-Owned mine, update_same q.data_of (r % 2 ^ k) (r % 2 ^ k) x refl)

  pub fill-ProducerOk :
      (w : Producer A)
      → owns filler k w ≢ some r
      → ProducerOk filler k q log w
      → ProducerOk filler k after_fill log w
  fill-ProducerOk outside ne ok = tt
  fill-ProducerOk (at_turn item p) ne ok = ok
  fill-ProducerOk (at_cas item p) ne ok = ok
  fill-ProducerOk (reloading item) ne ok = tt
  fill-ProducerOk (claimed item p) ne ok = fill-Owned ok
  fill-ProducerOk (filled item p) ne ok = (
    fill-Owned ok.0,
    update_other q.data_of (r % 2 ^ k) (p % 2 ^ k) x (
          other_slot p ok.0.from_tail (omega (arith, ok.0.to_head, v.bounded))
            (λ e. ne (ap some e)))
        ∙ ok.1,
  )
  fill-ProducerOk (returned done) ne ok = tt

  pub fill-ConsumerOk :
      (c : Consumer A) → ConsumerOk filler k q log c → ConsumerOk filler k after_fill log c
  fill-ConsumerOk resting ok = tt
  fill-ConsumerOk at_take ok = ok
  fill-ConsumerOk (at_release item) ok = ok
  fill-ConsumerOk (popped result) ok = tt

  -- `slot.turn.store(head + 1, …)`
  abbrev pub after_publish : Queue A
  after_publish = record q { turn = update q.turn (r % 2 ^ k) (r + 1) }

  turn-other :
      (p : ℕ)
      → q.tail ≤ p
      → p < q.tail + 2 ^ k
      → p ≢ r
      → after_publish.turn (p % 2 ^ k) ≡ q.turn (p % 2 ^ k)
  turn-other p lo hi ne =
      update_other q.turn (r % 2 ^ k) (p % 2 ^ k) (r + 1) (other_slot p lo hi ne)

  module _ (stored : q.data_of (r % 2 ^ k) ≡ x) where
    publish-slots : (p : ℕ) → q.tail ≤ p → p < q.tail + 2 ^ k → Slot filler k after_publish log p
    publish-slots p lo hi = elim (order p r) [
      | inl e ↦ subst (Slot filler k after_publish log) (sym e) (
          published mine.to_head (update_same q.turn (r % 2 ^ k) (r % 2 ^ k) (r + 1) refl)
            (stored ∙ sym mine.logged))
      | inr ne ↦ go ne (v.slots p lo hi)
    ]
      where
        go : p ≢ r → Slot filler k q log p → Slot filler k after_publish log p
        go ne (published lt t d) = published lt (turn-other p lo hi ne ∙ t) d
        go ne (taken lt t) = taken lt (turn-other p lo hi ne ∙ t)
        go ne (free le t) = free le (turn-other p lo hi ne ∙ t)

    pub publish-Sound : Sound filler k after_publish log out
    publish-Sound = record {
      masked = v.masked;
      sized = v.sized;
      counted = v.counted;
      behind = v.behind;
      bounded = v.bounded;
      no_wrap = v.no_wrap;
      slots = publish-slots;
      gone = v.gone;
      in_order = v.in_order;
    }

  publish-Owned :
      {item : A} {p : ℕ}
      → p ≢ r
      → Owned filler k q log item p
      → Owned filler k after_publish log item p
  publish-Owned {p = p} ne o = record {
    from_tail = o.from_tail;
    to_head = o.to_head;
    turn_of = turn-other p o.from_tail (omega (arith, o.to_head, v.bounded)) ne ∙ o.turn_of;
    logged = o.logged;
  }

  pub publish-ProducerOk :
      (w : Producer A)
      → owns filler k w ≢ some r
      → ProducerOk filler k q log w
      → ProducerOk filler k after_publish log w
  publish-ProducerOk outside ne ok = tt
  publish-ProducerOk (at_turn item p) ne ok = ok
  publish-ProducerOk (at_cas item p) ne ok = ok
  publish-ProducerOk (reloading item) ne ok = tt
  publish-ProducerOk (claimed item p) ne ok = publish-Owned (λ e. ne (ap some e)) ok
  publish-ProducerOk (filled item p) ne ok = (publish-Owned (λ e. ne (ap some e)) ok.0, ok.1)
  publish-ProducerOk (returned done) ne ok = tt

  publish-Ready : Ready filler k q → Ready filler k after_publish
  publish-Ready ok =
      (ok.0, turn-other q.tail (omega arith) (omega (arith, pow2_pos k)) not_mine ∙ ok.1)
    where
      not_mine : q.tail ≢ r
      not_mine e = omega (arith, ok.1, mine.turn_of, e, ap (λ (n : ℕ). q.turn (n % 2 ^ k)) e)

  pub publish-ConsumerOk :
      (c : Consumer A) → ConsumerOk filler k q log c → ConsumerOk filler k after_publish log c
  publish-ConsumerOk resting ok = tt
  publish-ConsumerOk at_take ok = publish-Ready ok
  publish-ConsumerOk (at_release item) ok = (publish-Ready ok.0, ok.1)
  publish-ConsumerOk (popped result) ok = tt
