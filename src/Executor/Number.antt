-- ===== src/Executor/Number.antt =====
-- What the code asks of `double`. The operations are a parameter of all that computes with prices
-- and quantities, and the laws are those of values that are finite.
use kac.Base.{Bool, true, false, ◌≡◌}

pub record Double (D : Type 0) : Type 1 where
  pub zero_qty : D
  pub dust_eps : D
  pub add : D → D → D
  pub sub : D → D → D
  pub mul : D → D → D
  pub div : D → D → D
  pub neg : D → D
  pub abs : D → D
  pub hundred : D
  pub le : D → D → Bool
  pub lt : D → D → Bool

-- `x - x` and `x + (-x)` are zero for every finite `x`, and a finite value whose magnitude is more
-- than that of a dust is negative if it is not positive.
pub record IsDouble {D : Type 0} (num : Double D) (IsFinite : D → Type 0) : Type 0 where
  pub sub_self : {x : D} → IsFinite x → num.sub x x ≡ num.zero_qty
  pub add_neg : {x : D} → IsFinite x → num.add x (num.neg x) ≡ num.zero_qty
  pub sign :
      {x : D}
      → IsFinite x
      → num.le (num.abs x) num.dust_eps ≡ false
      → num.lt num.zero_qty x ≡ false
      → num.lt num.zero_qty (num.neg x) ≡ true
