-- ===== src/Executor/Text.antt =====
-- Text in buffers of the code: a C string is the list of its characters, without the final zero.
use kac.Base.{
  ℕ, ◌-◌, Bool, true, false, List, [], ◌∷◌, take, ◌==◌, ◌&&◌, ◌≡◌, refl, ap₂, arith, ==_refl,
  if◌then◌else◌, ltb,
}

abbrev pub max_order_id_len : ℕ
max_order_id_len = 48

abbrev pub max_symbol_len : ℕ
max_symbol_len = 16

-- `strncpy(buffer, text, size - 1); buffer[size - 1] = '\0'`
abbrev pub copy_text : ℕ → List ℕ → List ℕ
copy_text size text = take (size - 1) text

unfoldable pub same_text : List ℕ → List ℕ → Bool
same_text [] [] = true
same_text [] (y ∷ ys) = false
same_text (x ∷ xs) [] = false
same_text (x ∷ xs) (y ∷ ys) = (x == y) && same_text xs ys

-- whether the first character of the buffer is the final zero
unfoldable pub is_empty_text : List ℕ → Bool
is_empty_text [] = true
is_empty_text (x ∷ xs) = false

-- the order of `std::string`
unfoldable pub text_lt : List ℕ → List ℕ → Bool
text_lt xs [] = false
text_lt [] (y ∷ ys) = true
text_lt (x ∷ xs) (y ∷ ys) =
    let rest = text_lt xs ys in if ltb x y then true else if ltb y x then false else rest

pub same_text_refl : (xs : List ℕ) → same_text xs xs ≡ true
unfolding same_text
same_text_refl [] = refl
same_text_refl (x ∷ xs) = ground (arith, ==_refl x, same_text_refl xs)

pub same_text_eq : (xs ys : List ℕ) → same_text xs ys ≡ true → xs ≡ ys
unfolding same_text
same_text_eq [] [] e = refl
same_text_eq [] (y ∷ ys) e = absurd (ground arith)
same_text_eq (x ∷ xs) [] e = absurd (ground arith)
same_text_eq (x ∷ xs) (y ∷ ys) e = ap₂ ◌∷◌ (ground arith) (same_text_eq xs ys (ground arith))
