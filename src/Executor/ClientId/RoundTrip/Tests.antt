-- ===== src/Executor/ClientId/RoundTrip/Tests.antt =====
-- Tests of the client order id, and its theorem at a negative number.
use kac.Base.{◌≡◌, refl, some, none, true, false, [], ◌∷◌, arith, pos, negsuc}
use kac.Executor.ClientId.{
  digits, print_int, client_id, parse_client_order_id, strip_prefix, split_mark, keep_before,
  is_digit, read_digits, read_magnitude, from_chars, positive, parse_parts,
}
use kac.Executor.ClientId.RoundTrip.{below, parse_client_order_id-client_id}

-- "arb_12_buy"
client_id_12 : client_id (pos 12) true ≡ 97 ∷ 114 ∷ 98 ∷ 95 ∷ 49 ∷ 50 ∷ 95 ∷ 98 ∷ 117 ∷ 121 ∷ []
unfolding client_id print_int digits
client_id_12 = refl

-- "arb_1x_buy" is refused
parse_garbage :
    parse_client_order_id (97 ∷ 114 ∷ 98 ∷ 95 ∷ 49 ∷ 120 ∷ 95 ∷ 98 ∷ 117 ∷ 121 ∷ []) ≡ none
unfolding parse_client_order_id strip_prefix split_mark keep_before parse_parts from_chars positive
    read_magnitude read_digits is_digit
parse_garbage = refl

parse_client_order_id-client_id_example :
    parse_client_order_id (client_id (negsuc 41) false) ≡ some (negsuc 41, false)
parse_client_order_id-client_id_example =
    parse_client_order_id-client_id (negsuc 41) false (below (omega arith))
