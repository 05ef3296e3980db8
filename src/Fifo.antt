-- ===== src/Fifo.antt =====
-- What a bounded queue promises: a list of at most `room` items, the oldest first. The queues of
-- include/arbitrage/ipc and include/arbitrage/common are compared with it.
use kac.Base.{
  ℕ, Bool, true, false, Option, none, some, List, [], ◌∷◌, ◌++◌, ltb, if◌then◌else◌, length,
}

module _ {ℓ} {A : Type ℓ} where
  -- A full queue refuses.
  unfoldable pub push : ℕ → List A → A → Bool × List A
  push room xs x = if ltb (length xs) room then (true, xs ++ x ∷ []) else (false, xs)

  unfoldable pub pop : List A → Option A × List A
  pop [] = (none, [])
  pop (x ∷ xs) = (some x, xs)

-- A call of a client, and what it is told.
pub data Call {ℓ} (A : Type ℓ) : Type ℓ where
  pushes : A → Call A
  pops : Call A

pub data Reply {ℓ} (A : Type ℓ) : Type ℓ where
  pushed : Bool → Reply A
  popped : Option A → Reply A

module _ {ℓ} {A : Type ℓ} where
  unfoldable pub run : ℕ → List A → List (Call A) → List (Reply A)
  run room xs [] = []
  run room xs (pushes x ∷ cs) = let (done, ys) = push room xs x in pushed done ∷ run room ys cs
  run room xs (pops ∷ cs) = let (item, ys) = pop xs in popped item ∷ run room ys cs
