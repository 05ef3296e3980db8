-- ===== src/Accounts/Eligible.antt =====
-- What `select_account` answers, for all strategies.
use kac.Base.{
  ℕ, zero, suc, ◌%◌, ◌<◌, ◌≡◌, refl, subst, Bool, true, false, Option, none, some, List, [], ◌∷◌,
  arith, ltb, length, get_elem?, if-Holds, Bool-cases, Option-cases, inl, inr, ap, ◌∙◌,
}
use native.Mathlib.Nat.{mod-lt}
use mathlib.Core.List.{Memᴰ}
use mathlib.Core.List.Memᴰ
use kac.Executor.Number.{Double}
use kac.Executor.Order.{Exchange}
use kac.Executor.Text.{same_text, is_empty_text, same_text_refl}
use kac.Accounts.{
  Account, AccountManager, AccountSelectionStrategy, round_robin, weighted_random, least_used,
  highest_balance, lowest_latency, find_account,
}
use kac.Accounts.Select.{
  keep, find_balance, is_candidate, reach_weight, select_weighted_random, fewer_orders,
  fewest_orders, higher_balance, most_balance, pick_highest, choose, select_from, select_account,
  total_weight,
}

-- The predicate holds of each entry.
abbrev All {ℓ} : {A : Type 0} → (A → Type ℓ) → List A → Type ℓ
All {A = A} P xs = (a : A) → Memᴰ a xs → P a

module _ {A : Type 0} where
  get_elem?-Memᴰ :
      (xs : List A) (i : ℕ) → i < length xs → (a : A) × (get_elem? xs i ≡ some a) × Memᴰ a xs
  get_elem?-Memᴰ [] i lt = absurd (omega arith)
  get_elem?-Memᴰ (x ∷ xs) zero lt = (x, refl, Memᴰ.head refl)
  get_elem?-Memᴰ (x ∷ xs) (suc i) lt =
      let (a, e, h) = get_elem?-Memᴰ xs i (omega arith) in (a, e, Memᴰ.tail h)

  keep-Memᴰ : (p : A → Bool) (xs : List A) (a : A) → Memᴰ a (keep p xs) → Memᴰ a xs × (p a ≡ true)
  unfolding keep
  keep-Memᴰ p [] a h = elim h [ ]
  keep-Memᴰ p (x ∷ xs) a h =
      if-Holds (λ (ys : List A). Memᴰ a ys → Memᴰ a (x ∷ xs) × (p a ≡ true)) (p x)
        (λ passes m. elim (Memᴰ.cases_cons m) [
          | inl e ↦ (Memᴰ.head e, ap p e ∙ passes)
          | inr later ↦ let (mem, holds) = keep-Memᴰ p xs a later in (Memᴰ.tail mem, holds)
        ])
        (λ fails m. let (mem, holds) = keep-Memᴰ p xs a m in (Memᴰ.tail mem, holds)) h

  -- an entry that passes is kept
  Memᴰ-keep : (p : A → Bool) (xs : List A) (a : A) → Memᴰ a xs → p a ≡ true → Memᴰ a (keep p xs)
  unfolding keep
  Memᴰ-keep p [] a h e = elim h [ ]
  Memᴰ-keep p (x ∷ xs) a h e =
      if-Holds (λ (ys : List A). Memᴰ a ys) (p x)
        (λ passes. elim (Memᴰ.cases_cons h) [
          | inl here ↦ Memᴰ.head here
          | inr later ↦ Memᴰ.tail (Memᴰ-keep p xs a later e)
        ])
        (λ fails. elim (Memᴰ.cases_cons h) [
          | inl here ↦ absurd (ground (arith, ap p here, e, fails))
          | inr later ↦ Memᴰ-keep p xs a later e
        ])

module _ {D : Type 0} where
  find_account-Memᴰ :
      (xs : List (Account D)) (c : Account D)
      → Memᴰ c xs
      → (a : Account D) × (find_account c.id xs ≡ some a) × Memᴰ a xs
  unfolding find_account
  find_account-Memᴰ [] c h = elim h [ ]
  find_account-Memᴰ (x ∷ xs) c h = elim (Bool-cases (same_text c.id x.id)) [
    | inl same ↦ (x, ground (arith, same), Memᴰ.head refl)
    | inr other ↦ elim (Memᴰ.cases_cons h) [
      | inl here ↦ absurd (
          ground
            (arith, ap (λ (y : Account D). same_text c.id y.id) here, same_text_refl c.id, other))
      | inr later ↦
          let (a, e, m) = find_account-Memᴰ xs c later in (a, ground (arith, other, e), Memᴰ.tail m)
    ]
  ]

  fewest_orders-Memᴰ : (s : Account D) (cs : List (Account D)) → Memᴰ (fewest_orders s cs) (s ∷ cs)
  unfolding fewest_orders fewer_orders
  fewest_orders-Memᴰ s [] = Memᴰ.head refl
  fewest_orders-Memᴰ s (c ∷ cs) =
      elim (Memᴰ.cases_cons (fewest_orders-Memᴰ (fewer_orders s c) cs)) [
        | inl here ↦
            if-Holds
              (λ (x : Account D).
                fewest_orders (fewer_orders s c) cs ≡ x
                → Memᴰ (fewest_orders (fewer_orders s c) cs) (s ∷ c ∷ cs))
              (ltb c.order_count s.order_count) (λ less e. Memᴰ.tail (Memᴰ.head e))
              (λ more e. Memᴰ.head e) here
        | inr later ↦ Memᴰ.tail (Memᴰ.tail later)
      ]

module _ {D : Type 0} (num : Double D) where
  reach_weight-Memᴰ :
      (r sum : D) (last : Account D) (cs : List (Account D))
      → Memᴰ (reach_weight num r sum last cs) (last ∷ cs)
  unfolding reach_weight
  reach_weight-Memᴰ r sum last [] = Memᴰ.head refl
  reach_weight-Memᴰ r sum last (c ∷ cs) =
      if-Holds (λ (x : Account D). Memᴰ x (last ∷ c ∷ cs)) (num.le r (num.add sum c.weight))
        (λ reached. Memᴰ.tail (Memᴰ.head refl))
        (λ beyond. Memᴰ.tail (reach_weight-Memᴰ r (num.add sum c.weight) c cs))

  select_weighted_random-Memᴰ :
      (dis : D → D) (c : Account D) (cs : List (Account D))
      → Memᴰ (select_weighted_random num dis c cs) (c ∷ cs)
  unfolding select_weighted_random
  select_weighted_random-Memᴰ dis c cs =
      if-Holds (λ (x : Account D). Memᴰ x (c ∷ cs))
        (num.le (total_weight num num.zero_qty (c ∷ cs)) num.zero_qty) (λ nothing. Memᴰ.head refl)
        (λ weighs.
          elim (Memᴰ.cases_cons (
            reach_weight-Memᴰ (dis (total_weight num num.zero_qty (c ∷ cs))) num.zero_qty c
              (c ∷ cs))) [ inl same ↦ Memᴰ.head same | inr later ↦ later ])

  -- the account with the highest balance so far is a candidate
  higher_balance-keeps :
      (P : Account D → Type 0) (symbol : List ℕ) (c : Account D) (highest : D)
      (selected : Option (Account D))
      → ((a : Account D) → selected ≡ some a → P a)
      → P c
      → (a : Account D) → (higher_balance num symbol c (highest, selected)).1 ≡ some a
      → P a
  unfolding higher_balance
  higher_balance-keeps P symbol c highest selected h pc a e =
      elim (Option-cases (find_balance symbol c.balances)) [
        | inl missing ↦ h a (ground (arith, e, missing))
        | inr (amount, found) ↦ elim (Bool-cases (num.lt highest amount)) [
          | inl more ↦ subst P (ground (arith, e, found, more)) pc
          | inr less ↦ h a (ground (arith, e, found, less))
        ]
      ]

  most_balance-keeps :
      (P : Account D → Type 0) (symbol : List ℕ) (so_far : D × Option (Account D))
      (cs : List (Account D))
      → ((a : Account D) → so_far.1 ≡ some a → P a)
      → All P cs
      → (a : Account D) → most_balance num symbol so_far cs ≡ some a
      → P a
  unfolding most_balance
  most_balance-keeps P symbol (highest, selected) [] h all a e = h a e
  most_balance-keeps P symbol (highest, selected) (c ∷ cs) h all a e =
      most_balance-keeps P symbol (higher_balance num symbol c (highest, selected)) cs
        (higher_balance-keeps P symbol c highest selected h (all c (Memᴰ.head refl)))
        (λ b m. all b (Memᴰ.tail m)) a e

  pick_highest-Memᴰ :
      (symbol : List ℕ) (c : Account D) (cs : List (Account D))
      → Memᴰ (pick_highest num symbol c cs) (c ∷ cs)
  unfolding pick_highest
  pick_highest-Memᴰ symbol c cs =
      if-Holds (λ (x : Account D). Memᴰ x (c ∷ cs)) (is_empty_text symbol)
        (λ unnamed. Memᴰ.head refl)
        (λ named. elim (Option-cases (most_balance num symbol (num.zero_qty, none) (c ∷ cs))) [
          | inl nowhere ↦ rw nowhere (Memᴰ.head refl)
          | inr (a, found) ↦ rw found (
              most_balance-keeps (λ x. Memᴰ x (c ∷ cs)) symbol (num.zero_qty, none) (c ∷ cs)
                (λ b e. absurd (ground arith)) (λ b m. m) a found)
        ])

  -- Each strategy chooses one of the candidates.
  choose-Memᴰ :
      (dis : D → D) (strategy : AccountSelectionStrategy) (index : ℕ) (symbol : List ℕ)
      (c : Account D) (cs : List (Account D))
      → (a : Account D) × (choose num dis strategy index symbol c cs ≡ some a) × Memᴰ a (c ∷ cs)
  unfolding choose
  choose-Memᴰ dis round_robin index symbol c cs =
      get_elem?-Memᴰ (c ∷ cs) (index % length (c ∷ cs)) (mod-lt index (omega arith))
  choose-Memᴰ dis weighted_random index symbol c cs =
      find_account-Memᴰ (c ∷ cs) (select_weighted_random num dis c cs)
        (select_weighted_random-Memᴰ dis c cs)
  choose-Memᴰ dis least_used index symbol c cs = (
    fewest_orders c (c ∷ cs),
    refl,
    elim (Memᴰ.cases_cons (fewest_orders-Memᴰ c (c ∷ cs))) [
      | inl same ↦ Memᴰ.head same
      | inr later ↦ later
    ],
  )
  choose-Memᴰ dis highest_balance index symbol c cs =
      (pick_highest num symbol c cs, refl, pick_highest-Memᴰ symbol c cs)
  choose-Memᴰ dis lowest_latency index symbol c cs = (c, refl, Memᴰ.head refl)

-- What may be answered: an account of the manager that may be selected, and none only if there is no
-- such account.
pub data Answers {D : Type 0} (eligible : Account D → Bool) (accounts : List (Account D))
    : Option (Account D) → Type 0 where
  nobody : ((a : Account D) → Memᴰ a accounts → eligible a ≡ false) → Answers eligible accounts none
  somebody :
      (a : Account D) → Memᴰ a accounts → eligible a ≡ true → Answers eligible accounts (some a)

module _ {D : Type 0} (num : Double D) (dis : D → D) (now : ℕ) (ex : Exchange) (required : D)
    (symbol : List ℕ) where
  -- With every strategy and any random number, `select_account` gives an account of the manager that
  -- is active, on the exchange, and with the balance asked for, and it gives none only when no
  -- account is such.
  pub select_account-Answers :
      (m : AccountManager D)
      → Answers
          (is_candidate num ex required symbol)
          m.accounts
          ((select_account num dis now ex required symbol m).0)
  unfolding select_account select_from
  select_account-Answers m =
      let eligible = is_candidate num ex required symbol in
      from (keep eligible m.accounts) (keep-Memᴰ eligible m.accounts)
        (Memᴰ-keep eligible m.accounts)
    where
      from :
          (cs : List (Account D))
          → ((a : Account D)
              → Memᴰ a cs
              → Memᴰ a m.accounts × (is_candidate num ex required symbol a ≡ true))
          → ((a : Account D)
              → Memᴰ a m.accounts
              → is_candidate num ex required symbol a ≡ true
              → Memᴰ a cs)
          → Answers
              (is_candidate num ex required symbol)
              m.accounts
              ((select_from num dis now ex symbol cs m).0)
      from [] sound complete = nobody (λ a h.
          elim (Bool-cases (is_candidate num ex required symbol a)) [
            | inl yes_it_is ↦ absurd (Memᴰ.not-nil (complete a h yes_it_is))
            | inr no_it_is ↦ no_it_is
          ])
      from (c ∷ cs) sound complete =
          let (a, e, h) = choose-Memᴰ num dis m.strategy (m.round_robin_index ex) symbol c cs in
          let (mem, holds) = sound a h in rw e (somebody a mem holds)
