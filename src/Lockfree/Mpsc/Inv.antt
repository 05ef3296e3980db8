-- ===== src/Lockfree/Mpsc/Inv.antt =====
-- The invariant of `MPSCQueue`: which slot belongs to whom.
use kac.Base.{
  ℕ, ◌+◌, ◌-◌, ◌%◌, ◌^◌, ◌≤◌, ◌<◌, ◌≡◌, ◌≢◌, ◌⊎◌, inl, inr, sym, ap, ◌∙◌, Option, none, some, List,
  ==_refl, ==_ne, arith, length, get_or, bit_and,
}
use kac.Bits.{bit_and-mask}
use kac.Word.{word}
use kac.Window.{slot-ne}
use kac.Lockfree.Mpsc.{
  Queue, Producer, Consumer, outside, at_turn, at_cas, reloading, claimed, filled, returned,
  resting, at_take, at_release, popped, update, slot,
}
use kac.Lockfree.Mpsc.Machine.{System}

module _ {ℓ} {A : Type ℓ} (f : ℕ → A) (i j : ℕ) (a : A) where
  pub update_same : i ≡ j → update f i a j ≡ a
  update_same e = rw (e, ==_refl j)

  pub update_other : i ≢ j → update f i a j ≡ f j
  update_other ne = rw (==_ne i j ne)

module _ {A : Type 0} (filler : A) (k : ℕ) where
  abbrev pub cap : ℕ
  cap = 2 ^ k

  -- The three states of the slot for a position between `tail` and a round further.
  pub data Slot (q : Queue A) (log : List A) (p : ℕ) : Type 0 where
    published :
        p < q.head
        → q.turn (p % 2 ^ k) ≡ p + 1
        → q.data_of (p % 2 ^ k) ≡ get_or log p filler
        → Slot q log p
    taken : p < q.head → q.turn (p % 2 ^ k) ≡ p → Slot q log p
    free : q.head ≤ p → q.turn (p % 2 ^ k) ≡ p → Slot q log p

  -- A position that a producer has won and not yet handed over.
  pub record Owned (q : Queue A) (log : List A) (item : A) (p : ℕ) : Type 0 where
    pub from_tail : q.tail ≤ p
    pub to_head : p < q.head
    pub turn_of : q.turn (p % 2 ^ k) ≡ p
    pub logged : get_or log p filler ≡ item

  abbrev pub ProducerOk : Queue A → List A → Producer A → Type 0
  ProducerOk q log outside = Unit
  ProducerOk q log (at_turn item p) = p ≤ q.head
  ProducerOk q log (at_cas item p) = (p ≤ q.head) × (p ≡ q.head → q.head < q.tail + 2 ^ k)
  ProducerOk q log (reloading item) = Unit
  ProducerOk q log (claimed item p) = Owned q log item p
  ProducerOk q log (filled item p) = Owned q log item p × (q.data_of (p % 2 ^ k) ≡ item)
  ProducerOk q log (returned done) = Unit

  -- The oldest item is there to take.
  abbrev pub Ready : Queue A → Type 0
  Ready q = (q.tail < q.head) × (q.turn (q.tail % 2 ^ k) ≡ q.tail + 1)

  abbrev pub ConsumerOk : Queue A → List A → Consumer A → Type 0
  ConsumerOk q log resting = Unit
  ConsumerOk q log at_take = Ready q
  ConsumerOk q log (at_release item) = Ready q × (item ≡ get_or log q.tail filler)
  ConsumerOk q log (popped result) = Unit

  -- The position that a producer owns.
  abbrev pub owns : Producer A → Option ℕ
  owns (claimed item p) = some p
  owns (filled item p) = some p
  owns _ = none

  -- What holds of the queue itself.
  pub record Sound (q : Queue A) (log out : List A) : Type 0 where
    pub masked : q.mask ≡ 2 ^ k - 1
    pub sized : q.capacity ≡ 2 ^ k
    pub counted : length log ≡ q.head
    pub behind : q.tail ≤ q.head
    pub bounded : q.head ≤ q.tail + 2 ^ k
    pub no_wrap : q.head + 2 ^ k < word
    pub slots : (p : ℕ) → q.tail ≤ p → p < q.tail + 2 ^ k → Slot q log p
    pub gone : length out ≡ q.tail
    pub in_order : (p : ℕ) → p < q.tail → get_or out p filler ≡ get_or log p filler

  pub record Inv (s : System A) : Type 0 where
    pub sound : Sound s.queue s.log s.out
    pub producers : (i : ℕ) → ProducerOk s.queue s.log (s.producer i)
    pub unique : (i j p : ℕ) → owns (s.producer i) ≡ some p → owns (s.producer j) ≡ some p → i ≡ j
    pub consumer_ok : ConsumerOk s.queue s.log s.consumer

  -- Two positions within one round lie in different slots.
  pub apart :
      (t p r : ℕ) → t ≤ p → p < t + 2 ^ k → t ≤ r → r < t + 2 ^ k → p ≢ r → p % 2 ^ k ≢ r % 2 ^ k
  apart t p r h1 h2 h3 h4 ne e = elim (order p r) [
    | inl lt ↦
        slot-ne (2 ^ k) p (r - p) (omega arith) (omega arith)
          (e ∙ ap (λ (n : ℕ). n % 2 ^ k) (omega arith))
    | inr ge ↦
        slot-ne (2 ^ k) r (p - r) (omega arith) (omega arith)
          (sym e ∙ ap (λ (n : ℕ). n % 2 ^ k) (omega arith))
  ]
    where
      order : (a b : ℕ) → (a < b) ⊎ (b ≤ a)
      order a b = omega arith

  pub slot-mod : {q : Queue A} {log out : List A} → Sound q log out → (p : ℕ) → slot q p ≡ p % 2 ^ k
  slot-mod v p = ap (bit_and p) v.masked ∙ bit_and-mask k p
