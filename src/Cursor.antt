-- ===== src/Cursor.antt =====
-- Two cursors of a ring of `2^k` slots, `head` for the next write and `tail` for the next read,
-- of which one slot always stays empty: what the index arithmetic of the SPSC queues comes to.
use native.Mathlib.Nat.{mod-lt, mod-eq_of_lt, mod-eq-sub-mod, add-mod_right, mod_self, mod-mod}
use kac.Base.{
  ℕ, suc, ◌+◌, ◌-◌, ◌%◌, ◌^◌, ◌≤◌, ◌<◌, ◌≡◌, ◌≢◌, ◌↔◌, ◌⊎◌, inl, inr, sym, ap, ap₂, ◌∙◌, List, ◌∷◌,
  [], ◌++◌, bit_and, arith, length, get_or, set,
}
use kac.Bits.{bit_and-mask, pow2_pos}
use kac.Word.{add64, sub64, pow2_le_half, mod-add_word}
use kac.Window.{window, window-congr, window-set_next, window-set_outside}

-- How many slots lie from `tail` up to `head`.
abbrev pub occupied : ℕ → ℕ → ℕ → ℕ
occupied cap head tail = (head + cap - tail) % cap

module _ (k : ℕ) (small : k < 64) (head tail : ℕ) (hh : head < 2 ^ k) (ht : tail < 2 ^ k) where
  abbrev cap : ℕ
  cap = 2 ^ k

  -- The two cases of the modulus.
  occupied-cases :
      ((tail ≤ head) × (occupied cap head tail ≡ head - tail))
      ⊎ ((head < tail) × (occupied cap head tail ≡ head + cap - tail))
  occupied-cases = elim (order tail head) [
    | inl le ↦ inl (
      le,
      mod-eq-sub-mod {n = head + cap - tail} {m = cap} (omega arith)
          ∙ mod-eq_of_lt {n = head + cap - tail - cap} {m = cap} (omega arith)
          ∙ omega arith,
    )
    | inr lt ↦ inr (lt, mod-eq_of_lt (omega arith))
  ]
    where
      order : (a b : ℕ) → (a ≤ b) ⊎ (b < a)
      order a b = omega arith

  -- `(i + 1) & mask`
  pub advance : (i : ℕ) → i < cap → bit_and (add64 i 1) (cap - 1) ≡ (i + 1) % cap
  advance i h =
      bit_and-mask k (add64 i 1) ∙ ap (λ (n : ℕ). n % cap) (omega (arith, pow2_le_half k small))

  pub advance-cases :
      (i : ℕ)
      → i < cap
      → (((i + 1) % cap ≡ i + 1) × (i + 1 < cap)) ⊎ (((i + 1) % cap ≡ 0) × (i + 1 ≡ cap))
  advance-cases i h = elim (order (i + 1) cap (omega arith)) [
    | inl lt ↦ inl (mod-eq_of_lt lt, lt)
    | inr e ↦ inr (ap (λ (n : ℕ). n % cap) e ∙ mod_self cap, e)
  ]
    where
      order : (a b : ℕ) → a ≤ b → (a < b) ⊎ (a ≡ b)
      order a b h = omega arith

  -- `(head - tail) & mask`, whose subtraction may wrap
  pub distance : bit_and (sub64 head tail) (cap - 1) ≡ occupied cap head tail
  distance = bit_and-mask k (sub64 head tail) ∙ elim occupied-cases [
    | inl (le, e) ↦
        ap (λ (n : ℕ). n % cap) (omega (arith, pow2_le_half k small))
        ∙ mod-eq_of_lt {n = head - tail} (omega arith)
        ∙ sym e
    | inr (lt, e) ↦
        sym (add-mod_right (sub64 head tail) cap)
        ∙ ap (λ (n : ℕ). n % cap) (omega (arith, pow2_le_half k small))
        ∙ mod-add_word k (head + cap - tail) small
  ]

  -- Reading on for as long as there are entries ends at `head`.
  pub tail_reaches : (tail + occupied cap head tail) % cap ≡ head
  tail_reaches = elim occupied-cases [
    | inl (le, e) ↦ ap (λ (n : ℕ). n % cap) (omega (arith, e)) ∙ mod-eq_of_lt hh
    | inr (lt, e) ↦
        ap (λ (n : ℕ). n % cap) (omega (arith, e)) ∙ add-mod_right head cap ∙ mod-eq_of_lt hh
  ]

  pub occupied-lt : occupied cap head tail < cap
  occupied-lt = omega (arith, mod-lt (head + cap - tail) {m = cap})

  -- Equal cursors: nothing to read.
  pub empty_iff : (tail ≡ head) ↔ (occupied cap head tail ≡ 0)
  empty_iff = (λ e. grind (arith, occupied-cases), λ e. grind (arith, occupied-cases))

  -- The writer one slot behind the reader: no room.
  pub full_iff : ((head + 1) % cap ≡ tail) ↔ (occupied cap head tail + 1 ≡ cap)
  full_iff = (
    λ e. grind (arith, occupied-cases, advance-cases head hh),
    λ e. grind (arith, occupied-cases, advance-cases head hh),
  )

module _ (k : ℕ) (small : k < 64) (head tail : ℕ) (hh : head < 2 ^ k) (ht : tail < 2 ^ k) where
  next-lt : (i : ℕ) → (i + 1) % 2 ^ k < 2 ^ k
  next-lt i = omega (arith, pow2_pos k, mod-lt (i + 1) {m = 2 ^ k})

  occupied-write :
      (head + 1) % 2 ^ k ≢ tail
      → occupied (2 ^ k) ((head + 1) % 2 ^ k) tail ≡ suc (occupied (2 ^ k) head tail)
  occupied-write free = grind (
    arith,
    occupied-cases k small head tail hh ht,
    occupied-cases k small ((head + 1) % 2 ^ k) tail (next-lt head) ht,
    advance-cases k small head tail hh ht head hh,
  )

  occupied-read :
      tail ≢ head → occupied (2 ^ k) head tail ≡ suc (occupied (2 ^ k) head ((tail + 1) % 2 ^ k))
  occupied-read more = grind (
    arith,
    occupied-cases k small head tail hh ht,
    occupied-cases k small head ((tail + 1) % 2 ^ k) hh (next-lt tail),
    advance-cases k small head tail hh ht tail ht,
  )

module _ {ℓ} {A : Type ℓ} (zero_item : A) (k : ℕ) (small : k < 64) (buf : List A)
    (room : length buf ≡ 2 ^ k) (head tail : ℕ) (hh : head < 2 ^ k) (ht : tail < 2 ^ k) where
  -- The entries between the cursors, the next to be read first.
  abbrev pub entries : List A
  entries = window zero_item (2 ^ k) buf tail (occupied (2 ^ k) head tail)

  -- Writing at `head` and advancing it appends the item.
  pub entries-write :
      (x : A)
      → (head + 1) % 2 ^ k ≢ tail
      → window zero_item (2 ^ k) (set buf head x) tail (occupied (2 ^ k) ((head + 1) % 2 ^ k) tail)
        ≡ entries ++ x ∷ []
  entries-write x free =
      ap (window zero_item (2 ^ k) (set buf head x) tail) longer
      ∙ ap (λ i. window zero_item (2 ^ k) (set buf i x) tail (suc (occupied (2 ^ k) head tail)))
          (sym (tail_reaches k small head tail hh ht))
      ∙ window-set_next zero_item (2 ^ k) buf x tail (occupied (2 ^ k) head tail) (omega arith)
          (occupied-lt k small head tail hh ht)
    where
      longer : occupied (2 ^ k) ((head + 1) % 2 ^ k) tail ≡ suc (occupied (2 ^ k) head tail)
      longer = occupied-write k small head tail hh ht free

  -- Advancing `tail` drops the entry that stood there.
  pub entries-read :
      tail ≢ head
      → entries
        ≡ get_or buf tail zero_item
          ∷ window zero_item
              (2 ^ k)
              buf
              ((tail + 1) % 2 ^ k)
              (occupied (2 ^ k) head ((tail + 1) % 2 ^ k))
  entries-read more =
      ap (window zero_item (2 ^ k) buf tail) (occupied-read k small head tail hh ht more)
      ∙ ap₂ (λ i xs. get_or buf i zero_item ∷ xs) (mod-eq_of_lt ht)
          (window-congr zero_item (2 ^ k) buf (tail + 1) ((tail + 1) % 2 ^ k)
            (occupied (2 ^ k) head ((tail + 1) % 2 ^ k)) (sym (mod-mod (tail + 1) (2 ^ k))))

  -- Overwriting the slot that was read last changes nothing among the remaining entries.
  pub entries-clear :
      (y : A)
      → window zero_item
          (2 ^ k)
          (set buf tail y)
          ((tail + 1) % 2 ^ k)
          (occupied (2 ^ k) head ((tail + 1) % 2 ^ k))
        ≡ window zero_item
            (2 ^ k)
            buf
            ((tail + 1) % 2 ^ k)
            (occupied (2 ^ k) head ((tail + 1) % 2 ^ k))
  entries-clear y =
      window-congr zero_item (2 ^ k) (set buf tail y) ((tail + 1) % 2 ^ k) (tail + 1) n
        (mod-mod (tail + 1) (2 ^ k))
      ∙ ap (λ i. window zero_item (2 ^ k) (set buf i y) (tail + 1) n) (sym round)
      ∙ window-set_outside zero_item (2 ^ k) buf y (tail + 1) n (tail + 2 ^ k) (omega (arith, few))
          (omega arith)
      ∙ window-congr zero_item (2 ^ k) buf (tail + 1) ((tail + 1) % 2 ^ k) n
          (sym (mod-mod (tail + 1) (2 ^ k)))
    where
      n : ℕ
      n = occupied (2 ^ k) head ((tail + 1) % 2 ^ k)

      few : n < 2 ^ k
      few = occupied-lt k small head ((tail + 1) % 2 ^ k) hh (next-lt k small head tail hh ht tail)

      round : (tail + 2 ^ k) % 2 ^ k ≡ tail
      round = add-mod_right tail (2 ^ k) ∙ mod-eq_of_lt ht
