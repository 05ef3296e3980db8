-- ===== src/Word.antt =====
-- `uint64_t` and `size_t`: numbers below 2^64 with the wrap-around written out, and the masks that
-- the queues index with.
use native.Mathlib.Nat.{
  pow-le-pow_right, mod-eq_of_lt, mod-lt, two-pow-succ, mul-one, add-mul-mod_self_left,
}
use kac.Base.{ℕ, zero, suc, ◌+◌, ◌-◌, ◌*◌, ◌%◌, ◌^◌, ◌≤◌, ◌<◌, bit_and, ◌≡◌, ap, sym, ◌∙◌, arith}
use kac.Bits.{bit_and-mask, pow2_pos}

abbrev pub word : ℕ
word = 2 ^ 64

-- `uint64_t` addition and subtraction
abbrev pub add64 : ℕ → ℕ → ℕ
add64 a b = (a + b) % word

abbrev pub sub64 : ℕ → ℕ → ℕ
sub64 a b = (a + word - b) % word

-- The powers of two that a `uint64_t` holds are at most half of its range.
pub pow2_le_half : (k : ℕ) → k < 64 → 2 ^ k ≤ 2 ^ 63
pow2_le_half k h = pow-le-pow_right (omega arith) {i = k} {j = 63} (omega arith)

pub mask-lt : (k a : ℕ) → bit_and a (2 ^ k - 1) < 2 ^ k
mask-lt k a = omega (arith, bit_and-mask k a, pow2_pos k, mod-lt a {m = 2 ^ k})

pub mask_of_lt : (k a : ℕ) → a < 2 ^ k → bit_and a (2 ^ k - 1) ≡ a
mask_of_lt k a h = bit_and-mask k a ∙ mod-eq_of_lt h

pub pow2_add : (k d : ℕ) → 2 ^ (k + d) ≡ 2 ^ k * 2 ^ d
pow2_add k zero = ap (λ (n : ℕ). 2 ^ n) (omega arith) ∙ sym (mul-one (2 ^ k))
pow2_add k (suc d) =
    ap (λ (n : ℕ). 2 ^ n) (omega arith)
    ∙ two-pow-succ (k + d)
    ∙ omega (arith, pow2_add k d, two-pow-succ d, ap (λ (t : ℕ). 2 ^ k * t) (two-pow-succ d))

-- Adding the whole range of a word does not change a remainder by `2^k`.
pub mod-add_word : (k n : ℕ) → k < 64 → (n + word) % 2 ^ k ≡ n % 2 ^ k
mod-add_word k n h =
    ap (λ (t : ℕ). (n + t) % 2 ^ k) split ∙ add-mul-mod_self_left n (2 ^ k) (2 ^ (64 - k))
  where
    split : word ≡ 2 ^ k * 2 ^ (64 - k)
    split =
        let whole : ◌≡◌ {A = ℕ} 64 (k + (64 - k)) = omega arith in
        ap (λ (t : ℕ). 2 ^ t) whole ∙ pow2_add k (64 - k)
