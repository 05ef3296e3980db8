-- ===== src/Accounts/Fair.antt =====
-- With the strategy RoundRobin no candidate waits longer than one round.
use kac.Base.{
  ℕ, zero, suc, ◌+◌, ◌-◌, ◌*◌, ◌/◌, ◌%◌, ◌<◌, ◌≡◌, refl, Bool, true, false, Option, none, some,
  List, [], ◌∷◌, arith, length, get_elem?, if-Holds, ◌∙◌, ap, sym, ap₂, Bool-cases, ltb,
  if◌then◌else◌, inl, inr, ==_refl,
}
use native.Mathlib.Nat.{mod-lt, add-mul-mod_self_left, mod-eq_of_lt, mod-add-div, add-mod_right}
use mathlib.Core.List.{Memᴰ}
use mathlib.Core.List.Memᴰ
use kac.Word.{word, add64}
use kac.Executor.Number.{Double}
use kac.Executor.Order.{Exchange, same_exchange, exchange_code}
use kac.Executor.Text.{same_text}
use kac.Accounts.{Account, AccountManager, round_robin, change_account, is_active}
use kac.Accounts.Select.{
  keep, is_candidate, choose, select_from, select_account, mark_used, bump, active_on, has_balance,
  on_exchange,
}

module _ {D : Type 0} where
  ids : List (Account D) → List (List ℕ)
  ids [] = []
  ids (a ∷ accounts) = a.id ∷ ids accounts

  length-ids : (cs : List (Account D)) → length (ids cs) ≡ length cs
  unfolding ids
  length-ids [] = refl
  length-ids (c ∷ cs) = ap suc (length-ids cs)

  -- an entry of the ids is the id of the entry
  ids-get_elem? :
      (cs : List (Account D)) (j : ℕ) (key : List ℕ)
      → get_elem? (ids cs) j ≡ some key
      → (b : Account D) × (get_elem? cs j ≡ some b) × (b.id ≡ key)
  unfolding ids
  ids-get_elem? [] j key e = absurd (ground arith)
  ids-get_elem? (c ∷ cs) zero key e = (c, refl, ground (arith, e))
  ids-get_elem? (c ∷ cs) (suc j) key e = ids-get_elem? cs j key e

  ids-Memᴰ :
      (cs : List (Account D)) (a : Account D)
      → Memᴰ a cs
      → (j : ℕ) × (j < length cs) × (get_elem? (ids cs) j ≡ some a.id)
  unfolding ids
  ids-Memᴰ [] a h = elim h [ ]
  ids-Memᴰ (c ∷ cs) a h = elim (Memᴰ.cases_cons h) [
    | inl e ↦ (0, omega arith, ap (λ (x : Account D). some x.id) (sym e))
    | inr later ↦ let (j, lt, at) = ids-Memᴰ cs a later in (suc j, omega arith, at)
  ]

  ids-if :
      (b : Bool) (x : Account D) (ys : List (Account D))
      → ids (if b then x ∷ ys else ys) ≡ (if b then x.id ∷ ids ys else ids ys)
  unfolding ids
  ids-if true x ys = refl
  ids-if false x ys = refl

  -- Marking an account as used leaves the candidates.
  ids-keep :
      (p : Account D → Bool) (now : ℕ)
      → ((a : Account D) → p (record a { last_used_at = now }) ≡ p a)
      → (key : List ℕ) (xs : List (Account D))
      → ids (keep p (change_account key (λ b. record b { last_used_at = now }) xs))
        ≡ ids (keep p xs)
  unfolding keep change_account
  ids-keep p now h key [] = refl
  ids-keep p now h key (x ∷ xs) =
      if-Holds (λ (ys : List (Account D)). ids (keep p ys) ≡ ids (keep p (x ∷ xs)))
        (same_text key x.id)
        (λ same.
          ids-if (p (record x { last_used_at = now })) (record x { last_used_at = now }) (keep p xs)
          ∙ ap (λ (b : Bool). if b then x.id ∷ ids (keep p xs) else ids (keep p xs)) (h x)
          ∙ sym (ids-if (p x) x (keep p xs)))
        (λ other.
          ids-if (p x) x (keep p (change_account key (λ b. record b { last_used_at = now }) xs))
          ∙ ap (λ (l : List (List ℕ)). if p x then x.id ∷ l else l) (ids-keep p now h key xs)
          ∙ sym (ids-if (p x) x (keep p xs)))

-- A round through `n` entries that begins anywhere reaches each of them.
reaches : (n i j : ℕ) → j < n → (t : ℕ) × (t < n) × ((i + t) % n ≡ j)
reaches n i j lt =
    let base = mod-add-div i n in
    let rest = mod-lt i {m = n} (omega arith) in
    elim (Bool-cases (ltb j (i % n))) [
      | inl before ↦ (
        j + n - i % n,
        ground arith,
        ap (λ (x : ℕ). x % n) {x = i + (j + n - i % n)} {y = j + n + n * (i / n)} (ground arith)
            ∙ add-mul-mod_self_left (j + n) n (i / n)
            ∙ add-mod_right j n
            ∙ mod-eq_of_lt lt,
      )
      | inr after ↦ (
        j - i % n,
        ground arith,
        ap (λ (x : ℕ). x % n) {x = i + (j - i % n)} {y = j + n * (i / n)} (ground arith)
            ∙ add-mul-mod_self_left j n (i / n)
            ∙ mod-eq_of_lt lt,
      )
    ]

module _ {D : Type 0} (num : Double D) (dis : D → D) (ex : Exchange) (required : D)
    (symbol : List ℕ) where
  -- the candidates of a selection
  unfoldable pub candidates : AccountManager D → List (Account D)
  candidates m = keep (is_candidate num ex required symbol) m.accounts

  -- the manager after `n` selections, with the clock of each
  unfoldable pub selections : (ℕ → ℕ) → ℕ → AccountManager D → AccountManager D
  selections clock zero m = m
  selections clock (suc n) m =
      (select_account num dis (clock n) ex required symbol (selections clock n m)).1

  mark-ids :
      (now : ℕ) (selected : Option (Account D)) (m : AccountManager D)
      → ids (candidates (mark_used now selected m)) ≡ ids (candidates m)
  unfolding mark_used candidates is_candidate active_on has_balance on_exchange is_active
  mark-ids now none m = refl
  mark-ids now (some a) m =
      ids-keep (is_candidate num ex required symbol) now (λ b. refl) a.id m.accounts

  -- What a selection by turns leaves: the strategy and the candidates, and an index one higher.
  record Turn (m n : AccountManager D) : Type 0 where
    same_strategy : n.strategy ≡ m.strategy
    same_ids : ids (candidates n) ≡ ids (candidates m)
    next_index : n.round_robin_index ex ≡ add64 (m.round_robin_index ex) 1

  mark-strategy :
      (now : ℕ) (selected : Option (Account D)) (m : AccountManager D)
      → ((mark_used now selected m).strategy ≡ m.strategy)
        × ((mark_used now selected m).round_robin_index ≡ m.round_robin_index)
  unfolding mark_used
  mark-strategy now none m = (refl, refl)
  mark-strategy now (some a) m = (refl, refl)

  select_from-Turn :
      (now : ℕ) (cs : List (Account D)) (m : AccountManager D)
      → m.strategy ≡ round_robin
      → 0 < length cs
      → let (answer, n) = select_from num dis now ex symbol cs m in
        (answer ≡ get_elem? cs (m.round_robin_index ex % length cs)) × Turn m n
  unfolding select_from choose bump candidates same_exchange
  select_from-Turn now [] m turn some_c = absurd (omega arith)
  select_from-Turn now (c ∷ cs) m turn some_c =
      let picked = choose num dis m.strategy (m.round_robin_index ex) symbol c cs in
      let counted : AccountManager D = record m {
        selection_count = add64 m.selection_count 1;
        round_robin_index = bump m.strategy ex m.round_robin_index;
      } in
      let (strategy, index) = mark-strategy now picked counted in
      (
        ap (λ s. choose num dis s (m.round_robin_index ex) symbol c cs) turn,
        record {
          same_strategy = strategy;
          same_ids = mark-ids now picked counted ∙ unmarked;
          next_index =
              ap (λ (f : Exchange → ℕ). f ex) index
              ∙ ap (λ s. bump s ex m.round_robin_index ex) turn
              ∙ ap
                  (λ (b : Bool).
                    if b then add64 (m.round_robin_index ex) 1 else m.round_robin_index ex)
                  same;
        },
      )
    where
      unmarked :
          ids (
            candidates (record m {
              selection_count = add64 m.selection_count 1;
              round_robin_index = bump m.strategy ex m.round_robin_index;
            }))
          ≡ ids (candidates m)
      unmarked = refl

      same : same_exchange ex ex ≡ true
      same = ==_refl (exchange_code ex)

  select_account-Turn :
      (now : ℕ) (m : AccountManager D)
      → m.strategy ≡ round_robin
      → 0 < length (candidates m)
      → let (answer, n) = select_account num dis now ex required symbol m in
        (answer ≡ get_elem? (candidates m) (m.round_robin_index ex % length (candidates m)))
        × Turn m n
  unfolding select_account candidates
  select_account-Turn now m = select_from-Turn now (candidates m) m

  -- After some selections the strategy and the candidates are the same, and the index has moved as far.
  record After (n : ℕ) (m k : AccountManager D) : Type 0 where
    same_strategy : k.strategy ≡ m.strategy
    same_ids : ids (candidates k) ≡ ids (candidates m)
    index : k.round_robin_index ex ≡ m.round_robin_index ex + n

  selections-After :
      (clock : ℕ → ℕ) (n : ℕ) (m : AccountManager D)
      → m.strategy ≡ round_robin
      → 0 < length (candidates m)
      → m.round_robin_index ex + n < word
      → After n m (selections clock n m)
  unfolding selections
  selections-After clock zero m turn some_c small = record {
    same_strategy = refl;
    same_ids = refl;
    index = omega arith;
  }
  selections-After clock (suc n) m turn some_c small =
      let k = selections clock n m in
      let before = selections-After clock n m turn some_c (omega arith) in
      let lengths =
        sym (length-ids (candidates k)) ∙ ap length before.same_ids ∙ length-ids (candidates m) in
      let (answer, step) =
        select_account-Turn (clock n) k (before.same_strategy ∙ turn) (omega (arith, lengths)) in
      record {
        same_strategy = step.same_strategy ∙ before.same_strategy;
        same_ids = step.same_ids ∙ before.same_ids;
        index = step.next_index ∙ omega (arith, before.index);
      }

  -- With the strategy RoundRobin, and away from the wrap-around of the index, each account that may
  -- be selected is the answer of one of as many selections in a row as there are such accounts.
  pub select_account-fair :
      (clock : ℕ → ℕ) (m : AccountManager D) (a : Account D)
      → m.strategy ≡ round_robin
      → Memᴰ a (candidates m)
      → m.round_robin_index ex + length (candidates m) < word
      → (t : ℕ) × (t < length (candidates m))
        × ((b : Account D) × ((select_account num dis
                (clock t)
                ex
                required
                symbol
                (selections clock t m)).0
              ≡ some b)
            × (b.id ≡ a.id))
  select_account-fair clock m a turn mem small =
      let (j, lt, at) = ids-Memᴰ (candidates m) a mem in
      let (t, soon, there) = reaches (length (candidates m)) (m.round_robin_index ex) j lt in
      let k = selections clock t m in
      let after = selections-After clock t m turn (omega arith) (omega arith) in
      let lengths =
        sym (length-ids (candidates k)) ∙ ap length after.same_ids ∙ length-ids (candidates m) in
      let (answer, step) =
        select_account-Turn (clock t) k (after.same_strategy ∙ turn) (omega (arith, lengths)) in
      let place : k.round_robin_index ex % length (candidates k) ≡ j =
        ap₂ ◌%◌ after.index lengths ∙ there in
      let (b, here, same) =
        ids-get_elem? (candidates k) j a.id
          (ap (λ (l : List (List ℕ)). get_elem? l j) after.same_ids ∙ at) in
      (t, soon, (b, answer ∙ ap (get_elem? (candidates k)) place ∙ here, same))
