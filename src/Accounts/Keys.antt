-- ===== src/Accounts/Keys.antt =====
-- The ids of the accounts differ after every call, and adding and removing are inverse.
use kac.Base.{
  ℕ, ◌≡◌, refl, true, false, Option, none, some, List, [], ◌∷◌, if-Holds, ap, inl, inr,
  Option-Holds, Option-cases,
}
use kac.Executor.Text.{same_text, same_text_eq, is_empty_text}
use kac.Accounts.{
  Account, AccountManager, AccountStatus, Outcome, done, not_found, find_account, insert_account,
  erase_account, add_account, remove_account, update_account, get_account, enable_account,
  disable_account, set_account_status, record_order, record_error, update_balance, notify_change,
  change_and_notify, Change, added, removed, active, now_enabled, now_disabled, status_changed,
}
use kac.Accounts.Select.{keep, is_candidate, choose, select_from, select_account, mark_used}
use kac.Executor.Number.{Double}
use kac.Executor.Order.{Exchange}
use kac.Word.{add64}
use kac.Accounts.Map.{
  Distinct, find_account-insert, find_account-insert_self, insert_account-Distinct, erase-insert,
  erase_account-Distinct, change_account-Distinct,
}

-- A call that changes the accounts of the manager.
pub data Call (D : Type 0) : Type 0 where
  adds : (now : ℕ) → Account D → Call D
  removes : List ℕ → Call D
  updates : Account D → Call D
  enables : List ℕ → Call D
  disables : List ℕ → Call D
  marks : List ℕ → AccountStatus → List ℕ → Call D
  orders : (now : ℕ) → List ℕ → Call D
  errors : List ℕ → Call D
  balances : (now : ℕ) → List ℕ → List (List ℕ × D) → Call D
  selects : (D → D) → (now : ℕ) → Exchange → D → List ℕ → Call D

module _ {D : Type 0} (num : Double D) where
  pub call : Call D → AccountManager D → AccountManager D
  call (adds now account) m = (add_account now account m).1
  call (removes key) m = (remove_account key m).1
  call (updates account) m = (update_account account m).1
  call (enables key) m = enable_account key m
  call (disables key) m = disable_account key m
  call (marks key status message) m = set_account_status key status message m
  call (orders now key) m = record_order now key m
  call (errors key) m = record_error key m
  call (balances now key amounts) m = update_balance now key amounts m
  call (selects dis now ex required symbol) m = (select_account num dis now ex required symbol m).1

  pub calls : List (Call D) → AccountManager D → AccountManager D
  calls [] m = m
  calls (c ∷ cs) m = calls cs (call c m)

module _ {D : Type 0} where
  change_and_notify-Distinct :
      (key : List ℕ) (f : Account D → Account D) (event : Change) (m : AccountManager D)
      → ((a : Account D) → (f a).id ≡ a.id)
      → Distinct m.accounts
      → Distinct (change_and_notify key f event m).accounts
  unfolding change_and_notify notify_change
  change_and_notify-Distinct key f event m same v =
      Option-Holds (λ (n : AccountManager D). Distinct n.accounts) (find_account key m.accounts)
        (λ missing. v) (λ a found. change_account-Distinct f key m.accounts (λ b e. same b) v)

  add_account-Distinct :
      (now : ℕ) (new : Account D) (m : AccountManager D)
      → Distinct m.accounts
      → Distinct (add_account now new m).1.accounts
  unfolding add_account notify_change
  add_account-Distinct now new m v =
      if-Holds (λ (answer : Outcome × AccountManager D). Distinct answer.1.accounts)
        (is_empty_text new.id) (λ unnamed. v)
        (λ named. elim (Option-cases (find_account new.id m.accounts)) [
          | inl missing ↦ rw missing (
              insert_account-Distinct (record new { created_at = now; last_used_at = now })
                m.accounts missing v)
          | inr (a, found) ↦ rw found v
        ])

  remove_account-Distinct :
      (key : List ℕ) (m : AccountManager D)
      → Distinct m.accounts
      → Distinct (remove_account key m).1.accounts
  unfolding remove_account notify_change
  remove_account-Distinct key m v =
      Option-Holds (λ (answer : Outcome × AccountManager D). Distinct answer.1.accounts)
        (find_account key m.accounts) (λ missing. v)
        (λ a found. erase_account-Distinct key m.accounts v)

  update_account-Distinct :
      (new : Account D) (m : AccountManager D)
      → Distinct m.accounts
      → Distinct (update_account new m).1.accounts
  unfolding update_account notify_change
  update_account-Distinct new m v =
      Option-Holds (λ (answer : Outcome × AccountManager D). Distinct answer.1.accounts)
        (find_account new.id m.accounts) (λ missing. v)
        (λ a found.
          change_account-Distinct (λ b. record new { created_at = b.created_at }) new.id m.accounts
            (λ b e. same_text_eq new.id b.id e) v)

  count_order-Distinct :
      (now : ℕ) (key : List ℕ) (m : AccountManager D)
      → Distinct m.accounts
      → Distinct (record_order now key m).accounts × Distinct (record_error key m).accounts
  unfolding record_order record_error
  count_order-Distinct now key m v = (
    Option-Holds (λ (n : AccountManager D). Distinct n.accounts) (find_account key m.accounts)
        (λ missing. v)
        (λ a found.
          change_account-Distinct
            (λ b. record b { order_count = add64 b.order_count 1; last_used_at = now }) key
            m.accounts (λ b e. refl) v),
    Option-Holds (λ (n : AccountManager D). Distinct n.accounts) (find_account key m.accounts)
        (λ missing. v)
        (λ a found.
          change_account-Distinct (λ b. record b { error_count = add64 b.error_count 1 }) key
            m.accounts (λ b e. refl) v),
  )

  mark_used-Distinct :
      (now : ℕ) (selected : Option (Account D)) (m : AccountManager D)
      → Distinct m.accounts
      → Distinct (mark_used now selected m).accounts
  unfolding mark_used
  mark_used-Distinct now none m v = v
  mark_used-Distinct now (some a) m v =
      change_account-Distinct (λ b. record b { last_used_at = now }) a.id m.accounts (λ b e. refl) v

  select_from-Distinct :
      (num : Double D) (dis : D → D) (now : ℕ) (ex : Exchange) (symbol : List ℕ)
      (cs : List (Account D)) (m : AccountManager D)
      → Distinct m.accounts
      → Distinct (select_from num dis now ex symbol cs m).1.accounts
  unfolding select_from
  select_from-Distinct num dis now ex symbol [] m v = v
  select_from-Distinct num dis now ex symbol (c ∷ cs) m v =
      mark_used-Distinct now (choose num dis m.strategy (m.round_robin_index ex) symbol c cs) _ v

module _ {D : Type 0} (num : Double D) where
  call-Distinct :
      (c : Call D) (m : AccountManager D) → Distinct m.accounts → Distinct (call num c m).accounts
  unfolding call enable_account disable_account set_account_status update_balance select_account
  call-Distinct (adds now account) m v = add_account-Distinct now account m v
  call-Distinct (removes key) m v = remove_account-Distinct key m v
  call-Distinct (updates account) m v = update_account-Distinct account m v
  call-Distinct (enables key) m v =
      change_and_notify-Distinct key
        (λ a. record a { enabled = true; status = active; status_message = [] }) now_enabled m
        (λ a. refl) v
  call-Distinct (disables key) m v =
      change_and_notify-Distinct key (λ a. record a { enabled = false }) now_disabled m (λ a. refl)
        v
  call-Distinct (marks key status message) m v =
      change_and_notify-Distinct key (λ a. record a { status = status; status_message = message })
        status_changed m (λ a. refl) v
  call-Distinct (orders now key) m v = (count_order-Distinct now key m v).0
  call-Distinct (errors key) m v = (count_order-Distinct 0 key m v).1
  call-Distinct (balances now key amounts) m v =
      change_account-Distinct (λ a. record a { balances = amounts; balance_updated_at = now }) key
        m.accounts (λ a e. refl) v
  call-Distinct (selects dis now ex required symbol) m v =
      select_from-Distinct num dis now ex symbol
        (keep (is_candidate num ex required symbol) m.accounts) m v

  -- In every sequence of calls on a manager whose accounts have distinct ids the ids stay distinct.
  pub calls-Distinct :
      (cs : List (Call D)) (m : AccountManager D)
      → Distinct m.accounts
      → Distinct (calls num cs m).accounts
  unfolding calls
  calls-Distinct [] m v = v
  calls-Distinct (c ∷ cs) m v = calls-Distinct cs (call num c m) (call-Distinct c m v)

module _ {D : Type 0} where
  add_account-new :
      (now : ℕ) (new : Account D) (m : AccountManager D)
      → is_empty_text new.id ≡ false
      → find_account new.id m.accounts ≡ none
      → let stamped : Account D = record new { created_at = now; last_used_at = now } in
        add_account now new m ≡ (
          done,
          notify_change stamped added (record m { accounts = insert_account stamped m.accounts }),
        )
  unfolding add_account
  add_account-new now new m named fresh = rw (named, fresh) refl

  remove_account-old :
      (key : List ℕ) (old : Account D) (m : AccountManager D)
      → find_account key m.accounts ≡ some old
      → remove_account key m
        ≡ (done, notify_change old removed (record m { accounts = erase_account key m.accounts }))
  unfolding remove_account
  remove_account-old key old m found =
      ap
        (λ (o : Option (Account D)). elim o [
          | none ↦ (not_found, m)
          | some a ↦
              (done, notify_change a removed (record m { accounts = erase_account key m.accounts }))
        ])
        found

-- An account with an id that is not empty and not taken is added and then found with the time of
-- the call in it, every other id is found as before, and removing it again leaves the accounts as
-- they were.
pub add_account-remove_account :
    {D : Type 0} (now : ℕ) (new : Account D) (m : AccountManager D)
    → is_empty_text new.id ≡ false
    → get_account new.id m ≡ none
    → let (outcome, after) = add_account now new m in
      let (again, restored) = remove_account new.id after in
      (outcome ≡ done)
      × (get_account new.id after ≡ some (record new { created_at = now; last_used_at = now }))
      × ((key : List ℕ) → same_text key new.id ≡ false → get_account key after ≡ get_account key m)
      × (again ≡ done)
      × (restored.accounts ≡ m.accounts)
unfolding get_account notify_change
add_account-remove_account {D = D} now new m named fresh =
    let stamped : Account D = record new { created_at = now; last_used_at = now } in
    let full : AccountManager D =
      notify_change stamped added (record m { accounts = insert_account stamped m.accounts }) in
    let found = find_account-insert_self stamped m.accounts fresh in
    rw (add_account-new now new m named fresh, remove_account-old new.id stamped full found)
      (
        refl,
        found,
        (λ key other. find_account-insert key stamped m.accounts other),
        refl,
        erase-insert stamped m.accounts fresh,
      )
