-- ===== src/Executor/ClientId.antt =====
-- The client order id "arb_{request_id}_{buy|sell}": `execute_sync` of src/executor/dual_order.cpp
-- prints it, `parse_client_order_id` of src/executor/order_tracker.cpp reads it. Characters are
-- their codes. `request_id` is an `int64_t`.
pub mod RoundTrip
use kac.Base.{
  ◌>>=◌, ℕ, zero, suc, ◌+◌, ◌-◌, ◌*◌, ◌/◌, ◌%◌, ◌^◌, Bool, true, false, ◌&&◌, Option, none, some,
  List, [], ◌∷◌, ◌++◌, ◌==◌, leb, ltb, if◌then◌else◌, ℤ, pos, negsuc,
}
use kac.Executor.Text.{same_text, max_order_id_len, copy_text}

-- "arb_"
abbrev pub prefix_text : List ℕ
prefix_text = 97 ∷ 114 ∷ 98 ∷ 95 ∷ []

-- "buy"
abbrev pub buy_text : List ℕ
buy_text = 98 ∷ 117 ∷ 121 ∷ []

-- "sell"
abbrev pub sell_text : List ℕ
sell_text = 115 ∷ 101 ∷ 108 ∷ 108 ∷ []

-- '_', '-' and '0'
abbrev pub underscore : ℕ
underscore = 95

abbrev pub minus_sign : ℕ
minus_sign = 45

abbrev pub digit_zero : ℕ
digit_zero = 48

-- The decimal digits of a number of at most `fuel` digits.
pub digits : ℕ → ℕ → List ℕ
digits zero n = []
digits (suc fuel) n =
    let rest = digits fuel (n / 10) in
    if ltb n 10 then (digit_zero + n) ∷ [] else rest ++ (digit_zero + n % 10) ∷ []

-- `%lld`: an `int64_t` has at most 19 digits
pub print_int : ℤ → List ℕ
print_int (pos n) = digits 19 n
print_int (negsuc n) = minus_sign ∷ digits 19 (suc n)

-- `snprintf(id_buf, sizeof(id_buf), "arb_%lld_buy", …)` and its twin for "sell"
pub client_id : ℤ → Bool → List ℕ
client_id request_id is_buy_side = copy_text max_order_id_len (
    prefix_text
    ++ print_int request_id
    ++ underscore ∷ (if is_buy_side then buy_text else sell_text))

-- what follows the prefix, when the text begins with it: `strncmp`
unfoldable pub strip_prefix : List ℕ → List ℕ → Option (List ℕ)
strip_prefix [] text = some text
strip_prefix (p ∷ ps) [] = none
strip_prefix (p ∷ ps) (c ∷ text) = let rest = strip_prefix ps text in if p == c then rest else none

unfoldable pub keep_before : ℕ → Option (List ℕ × List ℕ) → Option (List ℕ × List ℕ)
keep_before c none = none
keep_before c (some (before, after)) = some (c ∷ before, after)

-- what stands before and after the first mark: `strchr`
unfoldable pub split_mark : ℕ → List ℕ → Option (List ℕ × List ℕ)
split_mark mark [] = none
split_mark mark (c ∷ text) =
    let rest = split_mark mark text in if c == mark then some ([], text) else keep_before c rest

unfoldable pub is_digit : ℕ → Bool
is_digit c = leb digit_zero c && leb c (digit_zero + 9)

-- the value of decimal digits that follow others of value `acc`
unfoldable pub read_digits : ℕ → List ℕ → Option ℕ
read_digits acc [] = some acc
read_digits acc (c ∷ text) =
    let rest = read_digits (acc * 10 + (c - digit_zero)) text in if is_digit c then rest else none

unfoldable pub read_magnitude : List ℕ → Option ℕ
read_magnitude [] = none
read_magnitude (c ∷ text) = read_digits 0 (c ∷ text)

unfoldable pub positive : Option ℕ → Option ℤ
positive none = none
positive (some n) = if ltb n (2 ^ 63) then some (pos n) else none

pub negative : Option ℕ → Option ℤ
negative none = none
negative (some zero) = some (pos 0)
negative (some (suc n)) = if ltb n (2 ^ 63) then some (negsuc n) else none

-- `std::from_chars` into an `int64_t`, when it must use up the whole text
unfoldable pub from_chars : List ℕ → Option ℤ
from_chars [] = none
from_chars (c ∷ text) =
    if c == minus_sign then negative (read_magnitude text) else positive (read_magnitude (c ∷ text))

unfoldable pub side_of : List ℕ → Option Bool
side_of side =
    if same_text side buy_text
    then some true
    else if same_text side sell_text
    then some false
    else none

unfoldable pub parse_parts : Option (List ℕ × List ℕ) → Option (ℤ × Bool)
parse_parts none = none
parse_parts (some (number, side)) = do
  request_id ← from_chars number
  is_buy_side ← side_of side
  some (request_id, is_buy_side)

unfoldable pub parse_client_order_id : List ℕ → Option (ℤ × Bool)
parse_client_order_id id = do
  tail ← strip_prefix prefix_text id
  parse_parts (split_mark underscore tail)
