-- ===== src/Lockfree/Mpsc/Full.antt =====
-- When `push` of an `MPSCQueue` reports failure.
use native.Mathlib.Nat.{mod-lt, mod-mod, add-mod-mod, mod-add-mod, add-mod_right}
use kac.Base.{
  ℕ, ◌+◌, ◌-◌, ◌%◌, ◌^◌, ◌≤◌, ◌<◌, ◌≡◌, ◌⊎◌, inl, inr, sym, ap, subst, ◌∙◌, Bool, false, arith,
}
use kac.Bits.{pow2_pos}
use kac.Lockfree.Mpsc.{
  Producer, outside, at_turn, at_cas, reloading, claimed, filled, returned, slot, check_turn,
  step_push,
}
use kac.Lockfree.Mpsc.Machine.{System, Reach, may_push}
use kac.Lockfree.Mpsc.Inv.{Slot, published, taken, free, ProducerOk, Sound, Inv, slot-mod}
use kac.Lockfree.Mpsc.Safety.{start, start-Inv, Reach-Inv}

-- The position of the current round that shares the slot of `p`.
abbrev current : ℕ → ℕ → ℕ → ℕ
current cap tail p = tail + (p % cap + cap - tail % cap) % cap

current-slot : (cap tail p : ℕ) → 0 < cap → current cap tail p % cap ≡ p % cap
current-slot cap tail p pos =
    add-mod-mod tail (p % cap + cap - tail % cap) cap
    ∙ sym (mod-add-mod tail cap (p % cap + cap - tail % cap))
    ∙ ap (λ (n : ℕ). n % cap) (omega (arith, mod-lt tail {m = cap}))
    ∙ add-mod_right (p % cap) cap
    ∙ mod-mod p cap

module _ {A : Type 0} (filler : A) (k : ℕ) {s : System A} (inv : Inv filler k s) where
  v : Sound filler k s.queue s.log s.out
  v = inv.sound

  turn-ge : (p : ℕ) → Slot filler k s.queue s.log p → p ≤ s.queue.turn (p % 2 ^ k)
  turn-ge p (published lt t d) = omega (arith, t)
  turn-ge p (taken lt t) = omega (arith, t)
  turn-ge p (free le t) = omega (arith, t)

  -- A slot never shows a turn below the oldest position.
  turn-ge-tail : (p : ℕ) → s.queue.tail ≤ s.queue.turn (p % 2 ^ k)
  turn-ge-tail p =
      let r = current (2 ^ k) s.queue.tail p in
      let near : (p % 2 ^ k + 2 ^ k - s.queue.tail % 2 ^ k) % 2 ^ k < 2 ^ k =
        omega (arith, pow2_pos k, mod-lt (p % 2 ^ k + 2 ^ k - s.queue.tail % 2 ^ k) {m = 2 ^ k}) in
      omega (
        arith,
        turn-ge r (v.slots r (omega arith) (omega arith)),
        ap s.queue.turn (current-slot (2 ^ k) s.queue.tail p (pow2_pos k)),
      )

  -- The test of a position that was read from the head fails only in a full queue.
  fails-full :
      (item : A) (p : ℕ)
      → p ≤ s.queue.head
      → check_turn s.queue item p ≡ returned false
      → s.queue.head ≡ s.queue.tail + 2 ^ k
  unfolding check_turn
  fails-full item p le failed = elim order [
    | inl old ↦ absurd (omega (arith, low, turn-ge-tail p))
    | inr (inl now) ↦ absurd (omega (arith, low, turn-ge p (v.slots p now.0 now.1)))
    | inr (inr end) ↦ omega (arith, v.bounded)
  ]
    where
      order :
          (p < s.queue.tail)
          ⊎ ((s.queue.tail ≤ p) × (p < s.queue.tail + 2 ^ k))
          ⊎ (s.queue.tail + 2 ^ k ≤ p)
      order = omega arith

      below : s.queue.turn (slot s.queue p) < p
      below = ground arith

      low : s.queue.turn (p % 2 ^ k) < p
      low = subst (λ i. s.queue.turn i < p) (slot-mod filler k v p) below

module _ {A : Type 0} (filler : A) (garbage : ℕ → A) (k : ℕ) (small : k < 64) (two : 1 ≤ k)
    {t : System A} (r : Reach (start garbage k) t) (i : ℕ) (fails : Bool) where
  reached : Inv filler k t
  reached = Reach-Inv filler k two r (start-Inv filler garbage k small)

  failing-full :
      (w : Producer A)
      → ProducerOk filler k t.queue t.log w
      → may_push w ≡ false
      → (step_push fails t.queue w).1 ≡ returned false
      → t.queue.head ≡ t.queue.tail + 2 ^ k
  unfolding step_push
  failing-full outside ok busy failed = cc
  failing-full (at_turn item p) ok busy failed = fails-full filler k reached item p ok failed
  failing-full (at_cas item p) ok busy failed = absurd (ground arith)
  failing-full (reloading item) ok busy failed = cc
  failing-full (claimed item p) ok busy failed = cc
  failing-full (filled item p) ok busy failed = cc
  failing-full (returned done) ok busy failed = cc

  -- In every reachable state of a queue of two slots or more, a call of `push` that is under way
  -- and whose next access makes it return false finds the queue full: head is a whole round ahead
  -- of tail.
  pub fails_only_when_full :
      may_push (t.producer i) ≡ false
      → (step_push fails t.queue (t.producer i)).1 ≡ returned false
      → t.queue.head ≡ t.queue.tail + 2 ^ k
  fails_only_when_full = failing-full (t.producer i) (reached.producers i)
