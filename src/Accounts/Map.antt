-- ===== src/Accounts/Map.antt =====
-- The accounts as a map from ids: what finding, inserting, erasing and changing do to each other.
use kac.Base.{
  ℕ, ◌≡◌, refl, true, false, none, some, List, [], ◌∷◌, arith, if◌then◌else◌, if-Holds, ap, ◌∙◌,
  Bool-cases, inl, inr,
}
use kac.Executor.Text.{same_text, same_text_refl, same_text_eq, text_lt}
use kac.Accounts.{Account, find_account, insert_account, erase_account, change_account}

-- Each id stands once.
pub data Distinct {D : Type 0} : List (Account D) → Type 0 where
  nil : Distinct []
  cons :
      {a : Account D} {accounts : List (Account D)}
      → find_account a.id accounts ≡ none
      → Distinct accounts
      → Distinct (a ∷ accounts)

module _ {D : Type 0} where
  find_account-cons :
      (key : List ℕ) (a : Account D) (accounts : List (Account D))
      → find_account key (a ∷ accounts)
        ≡ (if same_text key a.id then some a else find_account key accounts)
  unfolding find_account
  find_account-cons key a accounts = refl

  -- a key that is not the new one is found as before
  pub find_account-insert :
      (key : List ℕ) (new : Account D) (accounts : List (Account D))
      → same_text key new.id ≡ false
      → find_account key (insert_account new accounts) ≡ find_account key accounts
  unfolding insert_account find_account
  find_account-insert key new [] other = rw other refl
  find_account-insert key new (a ∷ accounts) other =
      ground (arith, other, find_account-insert key new accounts other)

  pub find_account-insert_self :
      (new : Account D) (accounts : List (Account D))
      → find_account new.id accounts ≡ none
      → find_account new.id (insert_account new accounts) ≡ some new
  unfolding insert_account find_account
  find_account-insert_self new [] fresh = rw (same_text_refl new.id) refl
  find_account-insert_self new (a ∷ accounts) fresh =
      ground (arith, fresh, same_text_refl new.id, find_account-insert_self new accounts)

  -- a key that is not in the list is neither the id of the first entry nor in the rest
  absent-cons :
      (key : List ℕ) (a : Account D) (accounts : List (Account D))
      → find_account key (a ∷ accounts) ≡ none
      → (same_text key a.id ≡ false)
        × (same_text a.id key ≡ false)
        × (find_account key accounts ≡ none)
  unfolding find_account
  absent-cons key a accounts e =
      let apart : same_text key a.id ≡ false = ground (arith, e) in
      (
        apart,
        elim (Bool-cases (same_text a.id key)) [
          | inl same ↦ absurd (
              ground (
                arith,
                apart,
                ap (λ (x : List ℕ). same_text key x) (same_text_eq a.id key same)
                    ∙ same_text_refl key,
              ))
          | inr other ↦ other
        ],
        ground (arith, e, apart),
      )

  pub insert_account-Distinct :
      (new : Account D) (accounts : List (Account D))
      → find_account new.id accounts ≡ none
      → Distinct accounts
      → Distinct (insert_account new accounts)
  unfolding insert_account
  insert_account-Distinct new [] fresh nil = cons fresh nil
  insert_account-Distinct new (a ∷ accounts) fresh (cons apart rest) =
      if-Holds Distinct (text_lt new.id a.id) (λ before. cons fresh (cons apart rest))
        (λ after.
          let (apart_new, other, later) = absent-cons new.id a accounts fresh in
          cons (find_account-insert a.id new accounts other ∙ apart)
            (insert_account-Distinct new accounts later rest))

  -- removing what was just inserted
  pub erase-insert :
      (new : Account D) (accounts : List (Account D))
      → find_account new.id accounts ≡ none
      → erase_account new.id (insert_account new accounts) ≡ accounts
  unfolding erase_account insert_account
  erase-insert new [] fresh = rw (same_text_refl new.id) refl
  erase-insert new (a ∷ accounts) fresh =
      let (apart, other, later) = absent-cons new.id a accounts fresh in
      ground (arith, apart, same_text_refl new.id, erase-insert new accounts later)

  find_account-erase :
      (key gone : List ℕ) (accounts : List (Account D))
      → find_account key accounts ≡ none
      → find_account key (erase_account gone accounts) ≡ none
  unfolding erase_account find_account
  find_account-erase key gone [] e = e
  find_account-erase key gone (a ∷ accounts) e =
      let (apart, other, later) = absent-cons key a accounts e in
      ground (arith, apart, later, find_account-erase key gone accounts later)

  pub erase_account-Distinct :
      (gone : List ℕ) (accounts : List (Account D))
      → Distinct accounts
      → Distinct (erase_account gone accounts)
  unfolding erase_account
  erase_account-Distinct gone [] nil = nil
  erase_account-Distinct gone (a ∷ accounts) (cons apart rest) =
      if-Holds Distinct (same_text gone a.id) (λ at. rest)
        (λ away.
          cons (find_account-erase a.id gone accounts apart)
            (erase_account-Distinct gone accounts rest))

  module _ (f : Account D → Account D) where
    find_account-change :
        (key wanted : List ℕ) (accounts : List (Account D))
        → ((a : Account D) → same_text key a.id ≡ true → (f a).id ≡ a.id)
        → find_account wanted accounts ≡ none
        → find_account wanted (change_account key f accounts) ≡ none
    unfolding change_account find_account
    find_account-change key wanted [] same e = e
    find_account-change key wanted (a ∷ accounts) same e =
        let (apart, other, later) = absent-cons wanted a accounts e in
        elim (Bool-cases (same_text key a.id)) [
          | inl at ↦ ground (arith, at, later, ap (same_text wanted) (same a at) ∙ apart)
          | inr away ↦
              ground (arith, away, apart, find_account-change key wanted accounts same later)
        ]

    pub change_account-Distinct :
        (key : List ℕ) (accounts : List (Account D))
        → ((a : Account D) → same_text key a.id ≡ true → (f a).id ≡ a.id)
        → Distinct accounts
        → Distinct (change_account key f accounts)
    unfolding change_account
    change_account-Distinct key [] same nil = nil
    change_account-Distinct key (a ∷ accounts) same (cons apart rest) =
        if-Holds Distinct (same_text key a.id)
          (λ at. cons (ap (λ (x : List ℕ). find_account x accounts) (same a at) ∙ apart) rest)
          (λ away.
            cons (find_account-change key a.id accounts same apart)
              (change_account-Distinct key accounts same rest))
