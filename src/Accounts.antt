-- ===== src/Accounts.antt =====
-- include/arbitrage/common/account_manager.hpp, src/common/account_manager.cpp: `AccountManager`. A
-- call is one step, as under the write lock; the clock and the random number of a call are
-- arguments. The accounts are kept in the order of their ids, as in the `std::map`; the key of an
-- account is its id. A balance is found by its symbol. The calls of the callbacks are `changes`.
pub mod Select
pub mod Map
pub mod Keys
pub mod Eligible
pub mod Fair
pub mod Totals
mod Tests
use kac.Base.{
  ℕ, zero, suc, ◌+◌, ◌%◌, Bool, true, false, not, ◌&&◌, ◌||◌, Option, none, some, List, [], ◌∷◌,
  ◌++◌, if◌then◌else◌, ◌==◌, length, replicate, map,
}
use kac.Word.{add64}
use kac.Executor.Number.{Double}
use kac.Executor.Order.{Exchange, same_exchange, exchange_code, upbit, bithumb, binance, mexc}
use kac.Executor.Text.{same_text, text_lt, is_empty_text}

pub data AccountStatus : Type 0 where
  active : AccountStatus
  disabled : AccountStatus
  rate_limited : AccountStatus
  erroneous : AccountStatus
  maintenance : AccountStatus

pub data AccountSelectionStrategy : Type 0 where
  round_robin : AccountSelectionStrategy
  weighted_random : AccountSelectionStrategy
  least_used : AccountSelectionStrategy
  highest_balance : AccountSelectionStrategy
  lowest_latency : AccountSelectionStrategy

pub record Account (D : Type 0) : Type 0 where
  pub id : List ℕ
  pub exchange : Exchange
  pub label : List ℕ
  pub api_key_ref : List ℕ
  pub api_secret_ref : List ℕ
  pub enabled : Bool
  pub weight : D
  pub max_order_amount : D
  pub status : AccountStatus
  pub status_message : List ℕ
  pub created_at : ℕ
  pub last_used_at : ℕ
  pub order_count : ℕ
  pub error_count : ℕ
  pub balances : List (List ℕ × D)
  pub balance_updated_at : ℕ

-- the event that a change callback is told
pub data Change : Type 0 where
  added removed updated : Change
  now_enabled now_disabled status_changed : Change

pub data Outcome : Type 0 where
  done : Outcome
  invalid_parameter : Outcome
  not_found : Outcome

pub record AccountManager (D : Type 0) : Type 0 where
  pub accounts : List (Account D)
  pub strategy : AccountSelectionStrategy
  pub round_robin_index : Exchange → ℕ
  pub callbacks : ℕ
  pub changes : List (Account D × Change)
  pub total_orders : ℕ
  pub total_errors : ℕ
  pub selection_count : ℕ

unfoldable pub is_usable : AccountStatus → Bool
is_usable active = true
is_usable other = false

module _ {D : Type 0} where
  -- `AccountManager()`
  abbrev pub no_accounts : AccountManager D
  no_accounts = record {
    accounts = [];
    strategy = round_robin;
    round_robin_index = λ ex. 0;
    callbacks = 0;
    changes = [];
    total_orders = 0;
    total_errors = 0;
    selection_count = 0;
  }

  unfoldable pub is_active : Account D → Bool
  is_active a = a.enabled && is_usable a.status

  unfoldable pub find_account : List ℕ → List (Account D) → Option (Account D)
  find_account key [] = none
  find_account key (a ∷ accounts) =
      let rest = find_account key accounts in if same_text key a.id then some a else rest

  -- a new key of the map goes before the first that is greater
  unfoldable pub insert_account : Account D → List (Account D) → List (Account D)
  insert_account new [] = new ∷ []
  insert_account new (a ∷ accounts) =
      let rest = insert_account new accounts in
      if text_lt new.id a.id then new ∷ a ∷ accounts else a ∷ rest

  unfoldable pub erase_account : List ℕ → List (Account D) → List (Account D)
  erase_account key [] = []
  erase_account key (a ∷ accounts) =
      let rest = erase_account key accounts in if same_text key a.id then accounts else a ∷ rest

  unfoldable pub change_account :
      List ℕ → (Account D → Account D) → List (Account D) → List (Account D)
  change_account key f [] = []
  change_account key f (a ∷ accounts) =
      let rest = change_account key f accounts in
      if same_text key a.id then f a ∷ accounts else a ∷ rest

  pub notify_change : Account D → Change → AccountManager D → AccountManager D
  notify_change account event m = record m {
    changes = m.changes ++ replicate m.callbacks (account, event);
  }

  pub add_account : ℕ → Account D → AccountManager D → Outcome × AccountManager D
  add_account now account m =
      let new : Account D = record account { created_at = now; last_used_at = now } in
      if is_empty_text account.id
      then (invalid_parameter, m)
      else elim (find_account account.id m.accounts) [
        | some old ↦ (invalid_parameter, m)
        | none ↦
            (done, notify_change new added (record m { accounts = insert_account new m.accounts }))
      ]

  pub remove_account : List ℕ → AccountManager D → Outcome × AccountManager D
  remove_account key m = elim (find_account key m.accounts) [
    | none ↦ (not_found, m)
    | some old ↦
        (done, notify_change old removed (record m { accounts = erase_account key m.accounts }))
  ]

  pub update_account : Account D → AccountManager D → Outcome × AccountManager D
  update_account account m = elim (find_account account.id m.accounts) [
    | none ↦ (not_found, m)
    | some old ↦ (
      done,
      notify_change account updated (record m {
        accounts =
            change_account account.id (λ a. record account { created_at = a.created_at })
              m.accounts;
      }),
    )
  ]

  pub get_account : List ℕ → AccountManager D → Option (Account D)
  get_account key m = find_account key m.accounts

  -- an account that is found is changed, and its callbacks are told
  pub change_and_notify :
      List ℕ → (Account D → Account D) → Change → AccountManager D → AccountManager D
  change_and_notify key f event m = elim (find_account key m.accounts) [
    | none ↦ m
    | some old ↦
        notify_change (f old) event (record m { accounts = change_account key f m.accounts })
  ]

  pub enable_account : List ℕ → AccountManager D → AccountManager D
  enable_account key =
      change_and_notify key (λ a. record a { enabled = true; status = active; status_message = [] })
        now_enabled

  pub disable_account : List ℕ → AccountManager D → AccountManager D
  disable_account key = change_and_notify key (λ a. record a { enabled = false }) now_disabled

  pub set_account_status : List ℕ → AccountStatus → List ℕ → AccountManager D → AccountManager D
  set_account_status key status message =
      change_and_notify key (λ a. record a { status = status; status_message = message })
        status_changed

  pub record_order : ℕ → List ℕ → AccountManager D → AccountManager D
  record_order now key m = elim (find_account key m.accounts) [
    | none ↦ m
    | some old ↦ record m {
      accounts =
          change_account key
            (λ a. record a { order_count = add64 a.order_count 1; last_used_at = now }) m.accounts;
      total_orders = add64 m.total_orders 1;
    }
  ]

  pub record_error : List ℕ → AccountManager D → AccountManager D
  record_error key m = elim (find_account key m.accounts) [
    | none ↦ m
    | some old ↦ record m {
      accounts =
          change_account key (λ a. record a { error_count = add64 a.error_count 1 }) m.accounts;
      total_errors = add64 m.total_errors 1;
    }
  ]

  pub update_balance : ℕ → List ℕ → List (List ℕ × D) → AccountManager D → AccountManager D
  update_balance now key balances m = record m {
    accounts =
        change_account key (λ a. record a { balances = balances; balance_updated_at = now })
          m.accounts;
  }

  pub on_account_change : AccountManager D → AccountManager D
  on_account_change m = record m { callbacks = suc m.callbacks }

  pub set_strategy : AccountSelectionStrategy → AccountManager D → AccountManager D
  set_strategy strategy m = record m { strategy = strategy }
