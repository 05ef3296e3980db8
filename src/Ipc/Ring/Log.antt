-- ===== src/Ipc/Ring/Log.antt =====
-- What an overwriting ring promises: of everything that was ever pushed, the reader gets the
-- items in order, but skips what is older than the newest `keeps`.
use kac.Base.{
  ℕ, suc, ◌+◌, ◌-◌, max, Option, none, List, [], ◌∷◌, ◌++◌, leb, if◌then◌else◌, length, get_elem?,
  ◌≡◌, Bool-cases, inl, inr,
}

pub record Log {ℓ} (A : Type ℓ) : Type ℓ where
  pub items : List A
  -- how many of the items the reader is done with
  pub read : ℕ

pub data Call {ℓ} (A : Type ℓ) : Type ℓ where
  pushes : A → Call A
  pops pops_latest : Call A

module _ {ℓ} {A : Type ℓ} where
  abbrev pub push : Log A → A → Log A
  push l x = record l { items = l.items ++ x ∷ [] }

  abbrev pub position : ℕ → Log A → ℕ
  position keeps l = max l.read (length l.items - keeps)

  unfoldable pub pop : ℕ → Log A → Option A × Log A
  pop keeps l =
      if leb (length l.items) l.read
      then (none, l)
      else (get_elem? l.items (position keeps l), record l { read = position keeps l + 1 })

  unfoldable pub pop_latest : Log A → Option A × Log A
  pop_latest l =
      if leb (length l.items) l.read
      then (none, l)
      else (get_elem? l.items (length l.items - 1), record l { read = length l.items })

  unfoldable pub run : ℕ → Log A → List (Call A) → List (Option A)
  run keeps l [] = []
  run keeps l (pushes x ∷ cs) = run keeps (push l x) cs
  run keeps l (pops ∷ cs) = let (item, m) = pop keeps l in item ∷ run keeps m cs
  run keeps l (pops_latest ∷ cs) = let (item, m) = pop_latest l in item ∷ run keeps m cs

  -- How many items a sequence of calls pushes.
  abbrev pub pushes_in : List (Call A) → ℕ
  pushes_in [] = 0
  pushes_in (pushes x ∷ cs) = suc (pushes_in cs)
  pushes_in (pops ∷ cs) = pushes_in cs
  pushes_in (pops_latest ∷ cs) = pushes_in cs

  -- Reading changes nothing in the log.
  pub items-pop : (keeps : ℕ) (l : Log A) → (pop keeps l).1.items ≡ l.items
  unfolding pop
  items-pop keeps l = elim (Bool-cases (leb (length l.items) l.read)) [
    | inl e ↦ rw (e, pop)
    | inr e ↦ rw (e, pop)
  ]

  pub items-pop_latest : (l : Log A) → (pop_latest l).1.items ≡ l.items
  unfolding pop_latest
  items-pop_latest l = elim (Bool-cases (leb (length l.items) l.read)) [
    | inl e ↦ rw (e, pop_latest)
    | inr e ↦ rw (e, pop_latest)
  ]
