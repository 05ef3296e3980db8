-- ===== src/Executor/ClientId/RoundTrip.antt =====
-- Every client order id that the executor prints is read back by the tracker.
mod Tests
use native.Mathlib.Nat.{pow-succ'}
use kac.Base.{
  ℕ, zero, suc, ◌+◌, ◌-◌, ◌*◌, ◌/◌, ◌%◌, ◌^◌, ◌≤◌, ◌<◌, ◌≡◌, refl, ap, sym, ◌∙◌, Bool, true, false,
  Option, none, some, List, [], ◌∷◌, ◌++◌, arith, ◌==◌, leb, ltb, if◌then◌else◌, ℤ, pos, negsuc,
  ◌⊎◌, inl, inr, Bool-cases, length, length-append, take-all,
}
use kac.Executor.ClientId.{
  digits, digit_zero, underscore, is_digit, read_digits, read_magnitude, split_mark, keep_before,
  print_int, client_id, from_chars, parse_client_order_id, parse_parts, positive, negative, side_of,
  buy_text, sell_text, strip_prefix, minus_sign, prefix_text,
}
use kac.Executor.Text.{same_text}

read_digits-snoc :
    (xs : List ℕ) (acc v d : ℕ)
    → read_digits acc xs ≡ some v
    → d < 10
    → read_digits acc (xs ++ (digit_zero + d) ∷ []) ≡ some (v * 10 + d)
unfolding read_digits is_digit
read_digits-snoc [] acc v d e lt = ground arith
read_digits-snoc (c ∷ xs) acc v d e lt =
    ground (arith, read_digits-snoc xs (acc * 10 + (c - digit_zero)) v d)

read_digits-digits : (fuel n : ℕ) → n < 10 ^ fuel → read_digits 0 (digits fuel n) ≡ some n
unfolding digits read_digits is_digit
read_digits-digits zero n lt = ground arith
read_digits-digits (suc fuel) n lt = elim (Bool-cases (ltb n 10)) [
  | inl small ↦ ground arith
  | inr large ↦ ground (
    arith,
    read_digits-snoc (digits fuel (n / 10)) 0 (n / 10) (n % 10)
        (read_digits-digits fuel (n / 10) (omega (arith, pow-succ' 10 fuel))) (omega arith),
  )
]

-- A text of digits has no underscore: the first one is what follows it.
split_mark-digits :
    (xs after : List ℕ) (acc v : ℕ)
    → read_digits acc xs ≡ some v
    → split_mark underscore (xs ++ underscore ∷ after) ≡ some (xs, after)
unfolding read_digits is_digit split_mark keep_before
split_mark-digits [] after acc v e = ground arith
split_mark-digits (c ∷ xs) after acc v e =
    ground (arith, split_mark-digits xs after (acc * 10 + (c - digit_zero)) v)

-- The number of `int64_t` that the code of the value stands for.
pub data IsInt64 : ℤ → Type 0 where
  nonneg : {n : ℕ} → n < 2 ^ 63 → IsInt64 (pos n)
  below : {n : ℕ} → n < 2 ^ 63 → IsInt64 (negsuc n)

length-digits : (fuel n : ℕ) → length (digits fuel n) ≤ fuel
unfolding digits
length-digits zero n = omega arith
length-digits (suc fuel) n = ground (
  arith,
  length-digits fuel (n / 10),
  length-append (digits fuel (n / 10)) ((digit_zero + n % 10) ∷ []),
)

-- A text of digits that is read is not empty, does not begin with a minus sign, and is the number.
from_chars-digits :
    (xs : List ℕ) (v : ℕ)
    → 0 < length xs
    → read_digits 0 xs ≡ some v
    → from_chars xs ≡ positive (some v)
unfolding from_chars read_magnitude read_digits is_digit
from_chars-digits [] v some_digit e = absurd (omega arith)
from_chars-digits (c ∷ xs) v some_digit e = ground arith

read_magnitude-digits :
    (xs : List ℕ) (v : ℕ) → 0 < length xs → read_digits 0 xs ≡ some v → read_magnitude xs ≡ some v
unfolding read_magnitude
read_magnitude-digits [] v some_digit e = absurd (omega arith)
read_magnitude-digits (c ∷ xs) v some_digit e = e

length-digits-pos : (fuel n : ℕ) → 0 < length (digits (suc fuel) n)
unfolding digits
length-digits-pos fuel n =
    ground (arith, length-append (digits fuel (n / 10)) ((digit_zero + n % 10) ∷ []))

pow_bound : 2 ^ 63 < 10 ^ 19
pow_bound = omega arith

from_chars-print_int : (i : ℤ) → IsInt64 i → from_chars (print_int i) ≡ some i
unfolding print_int positive from_chars negative
from_chars-print_int (pos n) (nonneg lt) = ground (
  arith,
  from_chars-digits (digits 19 n) n (length-digits-pos 18 n)
      (read_digits-digits 19 n (omega arith)),
)
from_chars-print_int (negsuc n) (below lt) = ground (
  arith,
  read_magnitude-digits (digits 19 (suc n)) (suc n) (length-digits-pos 18 (suc n))
      (read_digits-digits 19 (suc n) (omega arith)),
)

split_mark-print_int :
    (i : ℤ) (after : List ℕ)
    → IsInt64 i
    → split_mark underscore (print_int i ++ underscore ∷ after) ≡ some (print_int i, after)
unfolding print_int split_mark keep_before
split_mark-print_int (pos n) after (nonneg lt) =
    split_mark-digits (digits 19 n) after 0 n (read_digits-digits 19 n (omega arith))
split_mark-print_int (negsuc n) after (below lt) = ground (
  arith,
  split_mark-digits (digits 19 (suc n)) after 0 (suc n)
      (read_digits-digits 19 (suc n) (omega arith)),
)

length-print_int : (i : ℤ) → length (print_int i) ≤ 20
unfolding print_int
length-print_int (pos n) = omega (arith, length-digits 19 n)
length-print_int (negsuc n) = omega (arith, length-digits 19 (suc n))

side_text : Bool → List ℕ
side_text side = if side then buy_text else sell_text

side_of-side_text : (side : Bool) → side_of (side_text side) ≡ some side
unfolding side_text side_of same_text
side_of-side_text true = refl
side_of-side_text false = refl

length-side_text : (side : Bool) → length (side_text side) ≤ 4
unfolding side_text
length-side_text true = omega arith
length-side_text false = omega arith

-- The id fits the buffer that it is printed to.
client_id-fits :
    (i : ℤ) (side : Bool)
    → client_id i side ≡ prefix_text ++ print_int i ++ underscore ∷ side_text side
unfolding client_id side_text
client_id-fits i side = take-all 47 (prefix_text ++ print_int i ++ underscore ∷ side_text side) (
    omega (
      arith,
      length-append (print_int i) (underscore ∷ side_text side),
      length-print_int i,
      length-side_text side,
    ))

-- The client order id of every `int64_t` and side is read back as that number and side.
pub parse_client_order_id-client_id :
    (i : ℤ) (side : Bool) → IsInt64 i → parse_client_order_id (client_id i side) ≡ some (i, side)
unfolding parse_client_order_id strip_prefix parse_parts
parse_client_order_id-client_id i side v =
    ap parse_client_order_id (client_id-fits i side)
    ∙ ap parse_parts (split_mark-print_int i (side_text side) v)
    ∙ rw (from_chars-print_int i v, side_of-side_text side)
