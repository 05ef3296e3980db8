-- ===== src/Bits.antt =====
-- `&` with a mask of low ones, and the test that a number is a power of two.
use Prim.Native.Nat.{digits, bit_and-bitwise}
use mathlib.Core.WellFounded
use native.Mathlib.Nat.{
  two-pow-succ, one-le-pow, div-add-mod, mul-add-mod_self_left, mod-eq_of_lt, mod-lt, mod_self,
}
use kac.Base.{
  ℕ, zero, suc, ◌+◌, ◌-◌, ◌*◌, ◌/◌, ◌%◌, ◌^◌, ◌≤◌, ◌<◌, min, bit_and, ◌≡◌, refl, sym, ap, ap₂,
  subst, ◌∙◌, arith, ◌⊎◌, inl, inr,
}
use kac.Base.Order.{lt_wf}

-- The recursion behind `bit_and`, with its count of digits explicit.
abbrev conj : ℕ → ℕ → ℕ → ℕ
conj n a b = digits (λ _. zero) min n a b

conj_zero : (fuel b : ℕ) → conj fuel 0 b ≡ 0
conj_zero zero b = refl
conj_zero (suc fuel) b = refl

-- Digits beyond those of the first number change nothing.
conj_extra : (few many a b : ℕ) → a ≤ few → few ≤ many → conj many a b ≡ conj few a b
conj_extra zero many zero b h le = conj_zero many b
conj_extra zero many (suc a) b h le = absurd (omega arith)
conj_extra (suc few) zero a b h le = absurd (omega arith)
conj_extra (suc few) (suc many) zero b h le = refl
conj_extra (suc few) (suc many) (suc a) b h le =
    omega (arith, conj_extra few many (suc a / 2) (b / 2) (omega arith) (omega arith))

-- `bit_and` takes the lowest digits and goes on with the halves.
bit_and_digit : (a b : ℕ) → bit_and a b ≡ 2 * bit_and (a / 2) (b / 2) + min (a % 2) (b % 2)
bit_and_digit zero b = omega (arith, bit_and-bitwise 0 (b / 2), bit_and-bitwise 0 b)
bit_and_digit (suc a) b =
    let half = suc a / 2 in
    let enough = conj_extra half a half (b / 2) (omega arith) (omega arith) in
    omega (arith, enough, bit_and-bitwise half (b / 2), bit_and-bitwise (suc a) b)

-- What holds of zero, and of each number by its half, holds of all.
by_halves :
    (P : ℕ → Type 0) → P 0 → ((n : ℕ) → P (suc n / 2) → P (suc n)) → (n bound : ℕ) → n ≤ bound → P n
by_halves P base up zero bound h = base
by_halves P base up (suc n) zero h = absurd (omega arith)
by_halves P base up (suc n) (suc bound) h =
    up n (by_halves P base up (suc n / 2) bound (omega arith))

pub pow2_pos : (k : ℕ) → 1 ≤ 2 ^ k
pow2_pos k = one-le-pow k 2 (omega arith)

mod_double : (p a : ℕ) → 1 ≤ p → a % (2 * p) ≡ 2 * (a / 2 % p) + a % 2
mod_double p a h =
    ap (λ (t : ℕ). t % (2 * p)) split
    ∙ mul-add-mod_self_left (2 * p) (a / 2 / p) (2 * (a / 2 % p) + a % 2)
    ∙ mod-eq_of_lt (omega (arith, mod-lt (a / 2) {m = p}))
  where
    split : a ≡ 2 * p * (a / 2 / p) + (2 * (a / 2 % p) + a % 2)
    split = omega (arith, div-add-mod (a / 2) p)

no_bits : (a : ℕ) → bit_and a 0 ≡ 0
no_bits a =
    by_halves (λ n. bit_and n 0 ≡ 0) refl (λ n below. omega (arith, bit_and_digit (suc n) 0, below))
      a a (omega arith)

-- `a & (2^k - 1)` is the remainder by `2^k`.
pub bit_and-mask : (k a : ℕ) → bit_and a (2 ^ k - 1) ≡ a % 2 ^ k
bit_and-mask zero a = no_bits a ∙ omega arith
bit_and-mask (suc k) a =
    bit_and_digit a (2 ^ suc k - 1)
    ∙ ap₂ (λ (x y : ℕ). 2 * x + y) (ap (bit_and (a / 2)) half_mask ∙ bit_and-mask k (a / 2)) low_bit
    ∙ sym (mod_double (2 ^ k) a (pow2_pos k))
    ∙ ap (λ (t : ℕ). a % t) (sym double)
  where
    double : 2 ^ suc k ≡ 2 * 2 ^ k
    double = omega (arith, two-pow-succ k)

    half_mask : (2 ^ suc k - 1) / 2 ≡ 2 ^ k - 1
    half_mask = omega (arith, two-pow-succ k, pow2_pos k)

    low_bit : min (a % 2) ((2 ^ suc k - 1) % 2) ≡ a % 2
    low_bit = omega (arith, two-pow-succ k, pow2_pos k)

bit_and_self : (a : ℕ) → bit_and a a ≡ a
bit_and_self a =
    by_halves (λ n. bit_and n n ≡ n) refl
      (λ n below. omega (arith, bit_and_digit (suc n) (suc n), below)) a a (omega arith)

abbrev SharesNone : ℕ → Type 0
SharesNone n = 1 ≤ n → bit_and n (n - 1) ≡ 0 → (k : ℕ) × (n ≡ 2 ^ k)

-- An even number passes the question on to its half; an odd one shares its bits with itself.
pow2_even :
    (m : ℕ) → SharesNone m → 1 ≤ 2 * m → bit_and (2 * m) (2 * m - 1) ≡ 0 → (k : ℕ) × (2 * m ≡ 2 ^ k)
pow2_even m ih pos e = (suc half.0, omega (arith, two-pow-succ half.0, half.1))
  where
    halves : ((2 * m) / 2 ≡ m) × ((2 * m - 1) / 2 ≡ m - 1)
    halves = omega arith

    disjoint : bit_and m (m - 1) ≡ 0
    disjoint = omega (arith, bit_and_digit (2 * m) (2 * m - 1), ap₂ bit_and halves.0 halves.1)

    half : (k : ℕ) × (m ≡ 2 ^ k)
    half = ih (omega arith) disjoint

pow2_odd : (m : ℕ) → bit_and (2 * m + 1) (2 * m + 1 - 1) ≡ 0 → (k : ℕ) × (2 * m + 1 ≡ 2 ^ k)
pow2_odd m e = (
  0,
  omega (arith, bit_and_digit (2 * m + 1) (2 * m + 1 - 1), ap₂ bit_and up down, bit_and_self m),
)
  where
    up : (2 * m + 1) / 2 ≡ m
    up = omega arith

    down : (2 * m + 1 - 1) / 2 ≡ m
    down = omega arith

parity : (n : ℕ) → (n ≡ 2 * (n / 2)) ⊎ (n ≡ 2 * (n / 2) + 1)
parity n = omega arith

-- A positive number that shares no bit with its predecessor is a power of two.
pub pow2_of_bit_and : (n : ℕ) → 1 ≤ n → bit_and n (n - 1) ≡ 0 → (k : ℕ) × (n ≡ 2 ^ k)
pow2_of_bit_and n = WellFounded.induction lt_wf {C = SharesNone} n step
  where
    step : (n : ℕ) → ((m : ℕ) → m < n → SharesNone m) → SharesNone n
    step n ih pos e = elim (parity n) [
      | inl even ↦
          let found =
            pow2_even (n / 2) (ih (n / 2) (omega arith)) (omega arith)
              (subst (λ t. bit_and t (t - 1) ≡ 0) even e) in
          (found.0, even ∙ found.1)
      | inr odd ↦
          let found = pow2_odd (n / 2) (subst (λ t. bit_and t (t - 1) ≡ 0) odd e) in
          (found.0, odd ∙ found.1)
    ]

-- And so is every power of two.
pub bit_and_of_pow2 : (k : ℕ) → bit_and (2 ^ k) (2 ^ k - 1) ≡ 0
bit_and_of_pow2 k = bit_and-mask k (2 ^ k) ∙ mod_self (2 ^ k)
