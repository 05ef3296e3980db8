-- ===== src/Whole.antt =====
-- Whole numbers with the operations that the code asks of `double`: a concrete parameter.
use kac.Base.{
  ℕ, zero, suc, ◌+◌, ◌-◌, ◌*◌, ◌/◌, Bool, true, false, not, ◌≡◌, refl, ltb, if◌then◌else◌, ℤ, pos,
  negsuc, arith,
}
use kac.Executor.Number.{Double, IsDouble}

abbrev negate : ℤ → ℤ
negate (pos zero) = pos 0
negate (pos (suc n)) = negsuc n
negate (negsuc n) = pos (suc n)

abbrev magnitude : ℤ → ℕ
magnitude (pos n) = n
magnitude (negsuc n) = suc n

abbrev difference : ℕ → ℕ → ℤ
difference a b = if ltb a b then negsuc (b - a - 1) else pos (a - b)

abbrev plus : ℤ → ℤ → ℤ
plus (pos a) (pos b) = pos (a + b)
plus (pos a) (negsuc b) = difference a (suc b)
plus (negsuc a) (pos b) = difference b (suc a)
plus (negsuc a) (negsuc b) = negsuc (a + b + 1)

abbrev less : ℤ → ℤ → Bool
less (pos a) (pos b) = ltb a b
less (pos a) (negsuc b) = false
less (negsuc a) (pos b) = true
less (negsuc a) (negsuc b) = ltb b a

abbrev signed : ℤ → ℕ → ℤ
signed (pos a) n = pos n
signed (negsuc a) n = negate (pos n)

abbrev times : ℤ → ℤ → ℤ
times (pos a) b = signed b (a * magnitude b)
times (negsuc a) b = negate (signed b (suc a * magnitude b))

abbrev quotient : ℤ → ℤ → ℤ
quotient (pos a) b = signed b (a / magnitude b)
quotient (negsuc a) b = negate (signed b (suc a / magnitude b))

abbrev pub whole : Double ℤ
whole = record {
  zero_qty = pos 0;
  dust_eps = pos 0;
  add = plus;
  sub = λ a b. plus a (negate b);
  mul = times;
  div = quotient;
  neg = negate;
  abs = λ a. pos (magnitude a);
  hundred = pos 100;
  le = λ a b. not (less b a);
  lt = less;
}

plus-negate : (x : ℤ) → plus x (negate x) ≡ pos 0
plus-negate (pos zero) = refl
plus-negate (pos (suc n)) = ground arith
plus-negate (negsuc n) = ground arith

negate-less :
    (x : ℤ)
    → not (less (pos 0) (pos (magnitude x))) ≡ false
    → less (pos 0) x ≡ false
    → less (pos 0) (negate x) ≡ true
negate-less (pos zero) far low = ground arith
negate-less (pos (suc n)) far low = ground arith
negate-less (negsuc n) far low = ground arith

pub whole-IsDouble : IsDouble whole (λ x. x ≡ x)
whole-IsDouble = record {
  sub_self = λ {x} finite. plus-negate x;
  add_neg = λ {x} finite. plus-negate x;
  sign = λ {x} finite far low. negate-less x far low;
}
