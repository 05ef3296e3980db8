-- ===== src/Base/Search.antt =====
-- Searching, counting and changing entries of a list by a Boolean test.
use Prim.Native.Nat.{ℕ, zero, suc, ◌+◌, ◌≤◌}
use mathlib.Core.Path.{◌≡◌, refl, ap}
use mathlib.Core.Bool.{Bool, true, false}
use mathlib.Core.List.{List, [], ◌∷◌}
use mathlib.Core.Option.{Option, none, some}
use native.Mathlib.Omega.{arith}
use kac.Base.Tests.{if◌then◌else◌, Bool-cases, Option-cases}
use mathlib.Core.Logic.{inl, inr}
use kac.Base.Lists.{get_elem?, set, length}

abbrev pub bit : Bool → ℕ
bit true = 1
bit false = 0

abbrev pub next_index : Option ℕ → Option ℕ
next_index none = none
next_index (some i) = some (suc i)

module _ {A : Type 0} where
  -- the index of the first entry that passes
  abbrev pub find_index : (A → Bool) → List A → Option ℕ
  find_index p [] = none
  find_index p (x ∷ xs) = let rest = find_index p xs in if p x then some 0 else next_index rest

  abbrev pub count_if : (A → Bool) → List A → ℕ
  count_if p [] = 0
  count_if p (x ∷ xs) = bit (p x) + count_if p xs

  abbrev pub update_at : List A → ℕ → (A → A) → List A
  update_at [] i f = []
  update_at (x ∷ xs) zero f = f x ∷ xs
  update_at (x ∷ xs) (suc i) f = x ∷ update_at xs i f

  pub find_index-passes :
      (p : A → Bool) (xs : List A) (i : ℕ)
      → find_index p xs ≡ some i
      → (x : A) × (get_elem? xs i ≡ some x) × (p x ≡ true)
  find_index-passes p [] i e = absurd (ground arith)
  find_index-passes p (x ∷ xs) i e = elim (Bool-cases (p x)) [
    | inl here ↦ (x, ground arith, here)
    | inr later ↦ elim (Option-cases (find_index p xs)) [
      | inl missing ↦ absurd (ground arith)
      | inr (j, found) ↦
          let (y, at, passes) = find_index-passes p xs j found in (y, ground (arith, at), passes)
    ]
  ]

  pub count_if-set :
      (p : A → Bool) (xs : List A) (i : ℕ) (x v : A)
      → get_elem? xs i ≡ some x
      → count_if p (set xs i v) + bit (p x) ≡ count_if p xs + bit (p v)
  count_if-set p [] i x v e = ground arith
  count_if-set p (y ∷ xs) zero x v e = ground arith
  count_if-set p (y ∷ xs) (suc i) x v e = omega (arith, count_if-set p xs i x v e)

  pub count_if-update_at :
      (p : A → Bool) (xs : List A) (i : ℕ) (f : A → A)
      → ((x : A) → p (f x) ≡ p x)
      → count_if p (update_at xs i f) ≡ count_if p xs
  count_if-update_at p [] i f h = refl
  count_if-update_at p (x ∷ xs) zero f h = ap (λ b. bit b + count_if p xs) (h x)
  count_if-update_at p (x ∷ xs) (suc i) f h = ap (bit (p x) +◌) (count_if-update_at p xs i f h)

  pub count_if-le : (p : A → Bool) (xs : List A) → count_if p xs ≤ length xs
  count_if-le p [] = omega arith
  count_if-le p (x ∷ xs) = ground (arith, count_if-le p xs)
