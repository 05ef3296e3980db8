-- ===== src/Accounts/Totals.antt =====
-- The balances of all active accounts of an exchange: `get_total_balance`, with and without a
-- symbol, and `refresh_balances`.
use kac.Base.{
  ℕ, ◌≡◌, refl, false, Option, none, some, List, [], ◌∷◌, arith, if◌then◌else◌, if-Holds, ap, ◌∙◌,
  sym, Bool-cases, inl, inr,
}
use mathlib.Core.List.{Memᴰ}
use kac.Executor.Number.{Double}
use kac.Executor.Order.{Exchange, upbit, bithumb, binance, mexc}
use kac.Executor.Text.{same_text, same_text_eq}
use kac.Accounts.{Account, AccountManager, find_account, update_balance}
use kac.Accounts.Select.{active_on, find_balance}

module _ {D : Type 0} (num : Double D) where
  -- `total[symbol] += balance`; a key that is missing begins with 0.0
  unfoldable pub add_balance : List ℕ → D → List (List ℕ × D) → List (List ℕ × D)
  add_balance symbol balance [] = (symbol, num.add num.zero_qty balance) ∷ []
  add_balance symbol balance ((key, sum) ∷ total) =
      let rest = add_balance symbol balance total in
      if same_text symbol key then (key, num.add sum balance) ∷ total else (key, sum) ∷ rest

  unfoldable pub add_balances : List (List ℕ × D) → List (List ℕ × D) → List (List ℕ × D)
  add_balances [] total = total
  add_balances ((symbol, balance) ∷ balances) total =
      add_balances balances (add_balance symbol balance total)

  unfoldable pub sum_balances : Exchange → List (Account D) → List (List ℕ × D) → List (List ℕ × D)
  sum_balances ex [] total = total
  sum_balances ex (a ∷ accounts) total =
      sum_balances ex accounts (if active_on ex a then add_balances a.balances total else total)

  unfoldable pub get_total_balances : Exchange → AccountManager D → List (List ℕ × D)
  get_total_balances ex m = sum_balances ex m.accounts []

  unfoldable pub add_if_found : D → Option D → D
  add_if_found total none = total
  add_if_found total (some amount) = num.add total amount

  unfoldable pub sum_symbol : Exchange → List ℕ → List (Account D) → D → D
  sum_symbol ex symbol [] total = total
  sum_symbol ex symbol (a ∷ accounts) total =
      sum_symbol ex symbol accounts
        (if active_on ex a then add_if_found total (find_balance symbol a.balances) else total)

  unfoldable pub get_total_balance : Exchange → List ℕ → AccountManager D → D
  get_total_balance ex symbol m = sum_symbol ex symbol m.accounts num.zero_qty

module _ {D : Type 0} where
  -- the ids of the active accounts of the exchange
  pub active_ids : Exchange → List (Account D) → List (List ℕ)
  active_ids ex [] = []
  active_ids ex (a ∷ accounts) =
      let rest = active_ids ex accounts in if active_on ex a then a.id ∷ rest else rest

  pub refresh_ids :
      (Account D → List (List ℕ × D)) → ℕ → List (List ℕ) → AccountManager D → AccountManager D
  refresh_ids balance_callback now [] m = m
  refresh_ids balance_callback now (key ∷ keys) m =
      refresh_ids balance_callback now keys (elim (find_account key m.accounts) [
        | none ↦ m
        | some account ↦ update_balance now key (balance_callback account) m
      ])

  pub refresh_balances :
      Option (Account D → List (List ℕ × D)) → ℕ → Exchange → AccountManager D → AccountManager D
  refresh_balances none now ex m = m
  refresh_balances (some balance_callback) now ex m =
      refresh_ids balance_callback now (active_ids ex m.accounts) m

  pub refresh_all_balances :
      Option (Account D → List (List ℕ × D)) → ℕ → AccountManager D → AccountManager D
  refresh_all_balances callback now m = refresh_balances callback now mexc (
      refresh_balances callback now binance
        (refresh_balances callback now bithumb (refresh_balances callback now upbit m)))

-- The keys of a map of balances differ.
pub data IsMap {D : Type 0} : List (List ℕ × D) → Type 0 where
  nil : IsMap []
  cons :
      {key : List ℕ} {amount : D} {balances : List (List ℕ × D)}
      → find_balance key balances ≡ none
      → IsMap balances
      → IsMap ((key, amount) ∷ balances)

module _ {D : Type 0} (num : Double D) (symbol : List ℕ) where
  -- what the map holds of the symbol, 0.0 if nothing
  pub held : List (List ℕ × D) → D
  held total = elim (find_balance symbol total) [ none ↦ num.zero_qty | some sum ↦ sum ]

  held-cons :
      (key : List ℕ) (sum : D) (total : List (List ℕ × D))
      → held ((key, sum) ∷ total) ≡ (if same_text symbol key then sum else held total)
  unfolding held find_balance
  held-cons key sum total = ground arith

  held-add_balance :
      (key : List ℕ) (balance : D) (total : List (List ℕ × D))
      → held (add_balance num key balance total)
        ≡ (if same_text symbol key then num.add (held total) balance else held total)
  unfolding add_balance held find_balance
  held-add_balance key balance [] =
      held-cons key (num.add num.zero_qty balance) [] ∙ rw nothing refl
    where
      nothing : held [] ≡ num.zero_qty
      nothing = refl
  held-add_balance key balance ((other, sum) ∷ total) =
      let rest = add_balance num key balance total in
      elim (Bool-cases (same_text key other)) [
        | inl same ↦
            let alike = ap (same_text symbol) (same_text_eq key other same) in
            ground (
              arith,
              same,
              alike,
              held-cons other (num.add sum balance) total,
              held-cons other sum total,
            )
        | inr apart ↦ elim (Bool-cases (same_text symbol other)) [
          | inl at ↦
              let alike = ap (same_text key) (same_text_eq symbol other at) in
              let missing : same_text symbol key ≡ false =
                elim (Bool-cases (same_text symbol key)) [
                  | inl bad ↦ absurd (
                      ground (
                        arith,
                        apart,
                        sym (ap (λ (x : List ℕ). same_text x other) (same_text_eq symbol key bad))
                            ∙ at,
                      ))
                  | inr good ↦ good
                ] in
              ground
                (arith, apart, at, missing, held-cons other sum rest, held-cons other sum total)
          | inr away ↦ ground (
            arith,
            apart,
            away,
            held-cons other sum rest,
            held-cons other sum total,
            held-add_balance key balance total,
          )
        ]
      ]

  held-add_balances :
      (balances total : List (List ℕ × D))
      → IsMap balances
      → held (add_balances num balances total)
        ≡ add_if_found num (held total) (find_balance symbol balances)
  unfolding add_balances add_if_found find_balance
  held-add_balances [] total nil = refl
  held-add_balances ((key, amount) ∷ balances) total (cons fresh rest) =
      let later = held-add_balances balances (add_balance num key amount total) rest in
      let first = held-add_balance key amount total in
      elim (Bool-cases (same_text symbol key)) [
        | inl same ↦
            let missing : find_balance symbol balances ≡ none =
              ap (λ (x : List ℕ). find_balance x balances) (same_text_eq symbol key same) ∙ fresh in
            later
            ∙ ap (add_if_found num (held (add_balance num key amount total))) missing
            ∙ first
            ∙ rw same refl
        | inr other ↦
            later
            ∙ ap (λ (x : D). add_if_found num x (find_balance symbol balances))
                {x = held (add_balance num key amount total)} {y = held total}
                (first ∙ rw other refl)
            ∙ rw other refl
      ]

  held-sum_balances :
      (ex : Exchange) (accounts : List (Account D)) (total : List (List ℕ × D))
      → ((a : Account D) → Memᴰ a accounts → IsMap a.balances)
      → held (sum_balances num ex accounts total) ≡ sum_symbol num ex symbol accounts (held total)
  unfolding sum_balances sum_symbol
  held-sum_balances ex [] total maps = refl
  held-sum_balances ex (a ∷ accounts) total maps =
      let added = held-add_balances a.balances total (maps a (Memᴰ.head refl)) in
      held-sum_balances ex accounts
        (if active_on ex a then add_balances num a.balances total else total)
        (λ b m. maps b (Memᴰ.tail m))
      ∙ ap (sum_symbol num ex symbol accounts) (
          if-Holds
            (λ (x : List (List ℕ × D)). held x ≡ (
              if active_on ex a
              then add_if_found num (held total) (find_balance symbol a.balances)
              else held total))
            (active_on ex a) (λ active. added ∙ rw active refl) (λ idle. rw idle refl))

  -- The two overloads of `get_total_balance` agree, whatever the arithmetic: what the map over all
  -- symbols holds of one, 0.0 if nothing, is the sum that is computed for this symbol alone.
  pub get_total_balances-eq-get_total_balance :
      (ex : Exchange) (m : AccountManager D)
      → ((a : Account D) → Memᴰ a m.accounts → IsMap a.balances)
      → held (get_total_balances num ex m) ≡ get_total_balance num ex symbol m
  unfolding get_total_balances get_total_balance held find_balance
  get_total_balances-eq-get_total_balance ex m maps = held-sum_balances ex m.accounts [] maps
