-- ===== src/Accounts/Select.antt =====
-- `AccountManager::select_account` and the queries over the accounts of an exchange.
use kac.Base.{
  ℕ, ◌%◌, Bool, true, false, not, ◌&&◌, Option, none, some, List, [], ◌∷◌, if◌then◌else◌, ltb,
  length, get_elem?,
}
use kac.Word.{add64}
use kac.Executor.Number.{Double}
use kac.Executor.Order.{Exchange, same_exchange}
use kac.Executor.Text.{same_text, is_empty_text}
use kac.Accounts.{
  Account, AccountManager, AccountSelectionStrategy, round_robin, weighted_random, least_used,
  highest_balance, lowest_latency, is_active, find_account, change_account,
}

-- `next_round_robin_index` leaves the index one higher, if the strategy asks for it
unfoldable pub bump : AccountSelectionStrategy → Exchange → (Exchange → ℕ) → Exchange → ℕ
bump round_robin ex index other =
    if same_exchange ex other then add64 (index other) 1 else index other
bump strategy ex index other = index other

-- the entries that pass
unfoldable pub keep : {A : Type 0} → (A → Bool) → List A → List A
keep p [] = []
keep p (x ∷ xs) = let rest = keep p xs in if p x then x ∷ rest else rest

module _ {D : Type 0} where
  unfoldable pub on_exchange : Exchange → Account D → Bool
  on_exchange ex a = same_exchange a.exchange ex

  unfoldable pub get_accounts : Exchange → AccountManager D → List (Account D)
  get_accounts ex m = keep (on_exchange ex) m.accounts

  unfoldable pub active_on : Exchange → Account D → Bool
  active_on ex a = on_exchange ex a && is_active a

  unfoldable pub get_active_accounts : Exchange → AccountManager D → List (Account D)
  get_active_accounts ex m = keep (active_on ex) m.accounts

  unfoldable pub count : AccountManager D → ℕ
  count m = length m.accounts

  unfoldable pub count_on : Exchange → AccountManager D → ℕ
  count_on ex m = length (keep (on_exchange ex) m.accounts)

  unfoldable pub find_balance : List ℕ → List (List ℕ × D) → Option D
  find_balance symbol [] = none
  find_balance symbol ((key, amount) ∷ balances) =
      let rest = find_balance symbol balances in if same_text symbol key then some amount else rest

  unfoldable pub fewer_orders : Account D → Account D → Account D
  fewer_orders selected c = if ltb c.order_count selected.order_count then c else selected

  unfoldable pub fewest_orders : Account D → List (Account D) → Account D
  fewest_orders selected [] = selected
  fewest_orders selected (c ∷ cs) = fewest_orders (fewer_orders selected c) cs

  -- the selected account is marked as used, and its copy from before is given
  unfoldable pub mark_used : ℕ → Option (Account D) → AccountManager D → AccountManager D
  mark_used now none m = m
  mark_used now (some a) m = record m {
    accounts = change_account a.id (λ b. record b { last_used_at = now }) m.accounts;
  }

module _ {D : Type 0} (num : Double D) where
  unfoldable pub has_balance : D → List ℕ → Account D → Bool
  has_balance required symbol a =
      if num.lt num.zero_qty required && not (is_empty_text symbol)
      then elim (find_balance symbol a.balances) [
        | none ↦ false
        | some amount ↦ not (num.lt amount required)
      ]
      else true

  -- the filter of the candidates
  unfoldable pub is_candidate : Exchange → D → List ℕ → Account D → Bool
  is_candidate ex required symbol a = active_on ex a && has_balance required symbol a

  unfoldable pub total_weight : D → List (Account D) → D
  total_weight sum [] = sum
  total_weight sum (c ∷ cs) = total_weight (num.add sum c.weight) cs

  -- the first account whose cumulative weight reaches `r`, or the last one
  unfoldable pub reach_weight : D → D → Account D → List (Account D) → Account D
  reach_weight r sum last [] = last
  reach_weight r sum last (c ∷ cs) =
      let rest = reach_weight r (num.add sum c.weight) c cs in
      if num.le r (num.add sum c.weight) then c else rest

  -- `dis(gen)` is a function of the total weight
  unfoldable pub select_weighted_random : (D → D) → Account D → List (Account D) → Account D
  select_weighted_random dis c cs =
      let total = total_weight num.zero_qty (c ∷ cs) in
      if num.le total num.zero_qty then c else reach_weight (dis total) num.zero_qty c (c ∷ cs)

  -- the highest balance so far, with its account
  unfoldable pub higher_balance :
      List ℕ → Account D → D × Option (Account D) → D × Option (Account D)
  higher_balance symbol c (highest, selected) = elim (find_balance symbol c.balances) [
    | none ↦ (highest, selected)
    | some amount ↦ if num.lt highest amount then (amount, some c) else (highest, selected)
  ]

  unfoldable pub most_balance :
      List ℕ → D × Option (Account D) → List (Account D) → Option (Account D)
  most_balance symbol (highest, selected) [] = selected
  most_balance symbol so_far (c ∷ cs) = most_balance symbol (higher_balance symbol c so_far) cs

  unfoldable pub pick_highest : List ℕ → Account D → List (Account D) → Account D
  pick_highest symbol c cs =
      if is_empty_text symbol then c else elim (most_balance symbol (num.zero_qty, none) (c ∷ cs)) [
        | none ↦ c
        | some found ↦ found
      ]

  -- the switch over the strategy, for the candidates `c ∷ cs`
  unfoldable pub choose :
      (D → D)
      → AccountSelectionStrategy
      → ℕ
      → List ℕ
      → Account D
      → List (Account D)
      → Option (Account D)
  choose dis round_robin index symbol c cs = get_elem? (c ∷ cs) (index % length (c ∷ cs))
  choose dis weighted_random index symbol c cs =
      find_account ((select_weighted_random dis c cs).id) (c ∷ cs)
  choose dis least_used index symbol c cs = some (fewest_orders c (c ∷ cs))
  choose dis highest_balance index symbol c cs = some (pick_highest symbol c cs)
  choose dis lowest_latency index symbol c cs = some c

  unfoldable pub select_from :
      (D → D)
      → ℕ
      → Exchange
      → List ℕ
      → List (Account D)
      → AccountManager D
      → Option (Account D) × AccountManager D
  select_from dis now ex symbol [] m = (none, m)
  select_from dis now ex symbol (c ∷ cs) m =
      let selected = choose dis m.strategy (m.round_robin_index ex) symbol c cs in
      (
        selected,
        mark_used now selected (record m {
          selection_count = add64 m.selection_count 1;
          round_robin_index = bump m.strategy ex m.round_robin_index;
        }),
      )

  unfoldable pub select_account :
      (D → D) → ℕ → Exchange → D → List ℕ → AccountManager D → Option (Account D) × AccountManager D
  select_account dis now ex required symbol m =
      select_from dis now ex symbol (keep (is_candidate ex required symbol) m.accounts) m
