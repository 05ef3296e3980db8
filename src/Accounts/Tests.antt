-- ===== src/Accounts/Tests.antt =====
-- The theorems on `AccountManager` at two accounts of one exchange.
use kac.Base.{
  ℕ, ◌<◌, true, false, ◌≡◌, refl, some, List, [], ◌∷◌, ℤ, pos, arith, sym, subst, inl, inr,
}
use mathlib.Core.List.{Memᴰ}
use mathlib.Core.List.Memᴰ
use kac.Whole.{whole}
use kac.Executor.Order.{upbit, same_exchange, exchange_code}
use kac.Executor.Text.{same_text, is_empty_text}
use kac.Accounts.{
  Account, AccountManager, active, done, no_accounts, add_account, remove_account, get_account,
  find_account, is_active, is_usable, weighted_random,
}
use kac.Accounts.Select.{
  select_account, keep, is_candidate, active_on, on_exchange, has_balance, find_balance,
}
use kac.Accounts.Map.{Distinct, nil, cons}
use kac.Accounts.Keys.{
  Call, adds, removes, enables, selects, calls, calls-Distinct, add_account-remove_account,
}
use kac.Accounts.Eligible.{Answers, select_account-Answers}
use kac.Accounts.Fair.{candidates, selections, select_account-fair}
use kac.Accounts.Totals.{
  IsMap, held, get_total_balances, get_total_balance, get_total_balances-eq-get_total_balance,
}

abbrev btc : List ℕ
btc = 66 ∷ []

abbrev account_of : List ℕ → ℕ → Account ℤ
account_of name amount = record {
  id = name;
  exchange = upbit;
  label = [];
  api_key_ref = [];
  api_secret_ref = [];
  enabled = true;
  weight = pos 1;
  max_order_amount = pos 0;
  status = active;
  status_message = [];
  created_at = 0;
  last_used_at = 0;
  order_count = 0;
  error_count = 0;
  balances = (btc, pos amount) ∷ [];
  balance_updated_at = 0;
}

abbrev first : Account ℤ
first = account_of (1 ∷ []) 5

abbrev second : Account ℤ
second = account_of (2 ∷ []) 7

abbrev two : AccountManager ℤ
two = record no_accounts { accounts = first ∷ second ∷ [] }

abbrev drawn : ℤ → ℤ
drawn total = pos 1

abbrev some_calls : List (Call ℤ)
some_calls =
    removes (1 ∷ [])
    ∷ adds 3 first
    ∷ adds 4 first
    ∷ enables (2 ∷ [])
    ∷ selects drawn 5 upbit (pos 6) btc
    ∷ []

two-Distinct : Distinct two.accounts
unfolding find_account same_text
two-Distinct = cons refl (cons refl nil)

two-IsMap : (a : Account ℤ) → Memᴰ a two.accounts → IsMap a.balances
unfolding find_balance
two-IsMap a h = elim (Memᴰ.cases_cons h) [
  | inl one ↦ subst (λ (x : Account ℤ). IsMap x.balances) (sym one) (IsMap.cons refl IsMap.nil)
  | inr later ↦ elim (Memᴰ.cases_cons later) [
    | inl other ↦
        subst (λ (x : Account ℤ). IsMap x.balances) (sym other) (IsMap.cons refl IsMap.nil)
    | inr gone ↦ absurd (Memᴰ.not-nil gone)
  ]
]

calls-Distinct_example : Distinct (calls whole some_calls two).accounts
calls-Distinct_example = calls-Distinct whole some_calls two two-Distinct

add_account-remove_account_example :
    let new : Account ℤ = account_of (3 ∷ []) 9 in
    let (outcome, after) = add_account 6 new two in
    let (again, restored) = remove_account (3 ∷ []) after in
    (outcome ≡ done)
    × (get_account (3 ∷ []) after ≡ some (record new { created_at = 6; last_used_at = 6 }))
    × ((key : List ℕ)
        → same_text key (3 ∷ []) ≡ false
        → get_account key after ≡ get_account key two)
    × (again ≡ done)
    × (restored.accounts ≡ two.accounts)
unfolding is_empty_text get_account find_account same_text
add_account-remove_account_example =
    add_account-remove_account 6 (account_of (3 ∷ []) 9) two refl refl

select_account-Answers_example :
    Answers (is_candidate whole upbit (pos 6) btc) two.accounts (
      (select_account whole drawn 7 upbit
        (pos 6)
        btc
        (record two { strategy = weighted_random })).0)
select_account-Answers_example =
    select_account-Answers whole drawn 7 upbit (pos 6) btc
      (record two { strategy = weighted_random })

select_account-fair_example :
    let m : AccountManager ℤ = record two { round_robin_index = λ ex. 6 } in
    (t : ℕ) × (t < 2)
    × ((b : Account ℤ) × ((select_account whole drawn t upbit
            (pos 3)
            btc
            (selections whole drawn upbit (pos 3) btc (λ n. n) t m)).0
          ≡ some b)
        × (b.id ≡ 2 ∷ []))
unfolding candidates keep is_candidate active_on on_exchange is_active is_usable has_balance
    find_balance same_text same_exchange exchange_code is_empty_text
select_account-fair_example =
    select_account-fair whole drawn upbit (pos 3) btc (λ n. n)
      (record two { round_robin_index = λ ex. 6 }) second refl (Memᴰ.tail (Memᴰ.head refl))
      (omega arith)

get_total_balances-eq-get_total_balance_example :
    held whole btc (get_total_balances whole upbit two) ≡ get_total_balance whole upbit btc two
get_total_balances-eq-get_total_balance_example =
    get_total_balances-eq-get_total_balance whole btc upbit two two-IsMap
