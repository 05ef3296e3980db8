-- ===== src/Window.antt =====
-- A stretch of a circular array: the entries at the positions `t`, `t + 1`, …, each taken modulo
-- the number of slots. All rings of this library are read through it.
use native.Mathlib.Nat.{mod-lt, mod-eq_of_lt, mod-eq-sub-mod, mod-add-mod}
use kac.Base.{
  ℕ, zero, suc, ◌+◌, ◌-◌, ◌%◌, ◌≤◌, ◌<◌, ◌≡◌, refl, sym, ap, ap₂, ◌∙◌, ◌≢◌, ◌⊎◌, inl, inr, List, [],
  ◌∷◌, ◌++◌, arith, length, get_or, set, get_or-set_self, get_or-set_ne,
}

-- Two positions less than a round apart lie in different slots.
pub slot-ne : (cap t e : ℕ) → 0 < e → e < cap → t % cap ≢ (t + e) % cap
slot-ne cap t e pos small same = elim (lt_or_ge (t % cap + e) cap) [
  | inl low ↦ omega (arith, same, mod-add-mod t cap e, mod-eq_of_lt low)
  | inr high ↦ omega (
    arith,
    same,
    mod-add-mod t cap e,
    mod-eq-sub-mod high,
    mod-lt t {m = cap},
    mod-eq_of_lt {n = t % cap + e - cap} {m = cap} (omega (arith, mod-lt t {m = cap})),
  )
]
  where
    lt_or_ge : (a b : ℕ) → (a < b) ⊎ (b ≤ a)
    lt_or_ge a b = omega arith

module _ {ℓ} {A : Type ℓ} (zero_item : A) (cap : ℕ) where
  abbrev pub window : List A → ℕ → ℕ → List A
  window buf t zero = []
  window buf t (suc n) = get_or buf (t % cap) zero_item ∷ window buf (t + 1) n

  pub length-window : (buf : List A) (t n : ℕ) → length (window buf t n) ≡ n
  length-window buf t zero = refl
  length-window buf t (suc n) = ap suc (length-window buf (t + 1) n)

  -- Only the slot of the first position counts.
  pub window-congr :
      (buf : List A) (t u n : ℕ) → t % cap ≡ u % cap → window buf t n ≡ window buf u n
  window-congr buf t u zero e = refl
  window-congr buf t u (suc n) e =
      ap₂ ◌∷◌ (ap (λ i. get_or buf i zero_item) e) (window-congr buf (t + 1) (u + 1) n step)
    where
      step : (t + 1) % cap ≡ (u + 1) % cap
      step = sym (mod-add-mod t cap 1) ∙ ap (λ (k : ℕ). (k + 1) % cap) e ∙ mod-add-mod u cap 1

  -- A write to a slot outside the stretch leaves it as it was.
  pub window-set_outside :
      (buf : List A) (x : A) (t n j : ℕ)
      → t + n ≤ j
      → j < t + cap
      → window (set buf (j % cap) x) t n ≡ window buf t n
  window-set_outside buf x t zero j lo hi = refl
  window-set_outside buf x t (suc n) j lo hi =
      ap₂ ◌∷◌ (get_or-set_ne buf (j % cap) (t % cap) x zero_item other)
        (window-set_outside buf x (t + 1) n j (omega arith) (omega arith))
    where
      other : j % cap ≢ t % cap
      other e =
          slot-ne cap t (j - t) (omega arith) (omega arith)
            (sym e ∙ ap (λ (k : ℕ). k % cap) (omega arith))

  pub window-snoc :
      (buf : List A) (t n : ℕ)
      → window buf t (suc n) ≡ window buf t n ++ get_or buf ((t + n) % cap) zero_item ∷ []
  window-snoc buf t zero = ap (λ (k : ℕ). get_or buf (k % cap) zero_item ∷ []) (omega arith)
  window-snoc buf t (suc n) = ap (◌∷◌ (get_or buf (t % cap) zero_item)) (
      window-snoc buf (t + 1) n
      ∙ ap (λ (k : ℕ). window buf (t + 1) n ++ get_or buf (k % cap) zero_item ∷ []) (omega arith))

  -- A write just past the stretch makes it longer by the item that is written.
  pub window-set_next :
      (buf : List A) (x : A) (t n : ℕ)
      → cap ≤ length buf
      → n < cap
      → window (set buf ((t + n) % cap) x) t (suc n) ≡ window buf t n ++ x ∷ []
  window-set_next buf x t n room few =
      window-snoc (set buf ((t + n) % cap) x) t n
      ∙ ap₂ (λ xs y. xs ++ y ∷ [])
          (window-set_outside buf x t n (t + n) (omega arith) (omega arith))
          (get_or-set_self buf ((t + n) % cap) x zero_item
            (omega (arith, mod-lt (t + n) {m = cap})))
