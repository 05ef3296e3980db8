-- ===== src/Executor/Tracker/Cleanup/Fresh.antt =====
-- After `cleanup_stale` no slot holds an old order.
use kac.Base.{
  ℕ, zero, suc, ◌+◌, ◌≤◌, ◌<◌, ◌≡◌, ◌⊎◌, inl, inr, refl, ap, ◌∙◌, Bool, false, Option, none, some,
  List, [], ◌∷◌, arith, Option-cases, get_elem?, get_or, set, length, find_index,
}
use kac.Executor.Number.{Double}
use kac.Executor.Tracker.{TrackedOrder, OrderTracker, reset_order}
use kac.Executor.Tracker.Cleanup.{
  names_slot, release_leg, release_dual, release_holder, is_old, clean_order, clean_orders,
  clean_duals, cleanup_stale,
}

module _ {A : Type 0} where
  get_or-set :
      (xs : List A) (i j : ℕ) (v d : A)
      → (get_or (set xs i v) j d ≡ v) ⊎ (get_or (set xs i v) j d ≡ get_or xs j d)
  get_or-set [] i j v d = inr refl
  get_or-set (x ∷ xs) zero zero v d = inl refl
  get_or-set (x ∷ xs) zero (suc j) v d = inr refl
  get_or-set (x ∷ xs) (suc i) zero v d = inr refl
  get_or-set (x ∷ xs) (suc i) (suc j) v d = get_or-set xs i j v d

  get_or-set_default : (xs : List A) (i : ℕ) (d : A) → get_or (set xs i d) i d ≡ d
  get_or-set_default [] i d = refl
  get_or-set_default (x ∷ xs) zero d = refl
  get_or-set_default (x ∷ xs) (suc i) d = get_or-set_default xs i d

  get_or_of_none : (xs : List A) (i : ℕ) (d : A) → get_elem? xs i ≡ none → get_or xs i d ≡ d
  get_or_of_none [] i d e = refl
  get_or_of_none (x ∷ xs) zero d e = absurd (ground arith)
  get_or_of_none (x ∷ xs) (suc i) d e = get_or_of_none xs i d e

  get_or_of_some : (xs : List A) (i : ℕ) (x d : A) → get_elem? xs i ≡ some x → get_or xs i d ≡ x
  get_or_of_some [] i x d e = absurd (ground arith)
  get_or_of_some (y ∷ xs) zero x d e = ground arith
  get_or_of_some (y ∷ xs) (suc i) x d e = get_or_of_some xs i x d e

module _ {D : Type 0} (num : Double D) (now max_age_ms : ℕ) where
  -- whether slot `j` holds an old order
  abbrev pub old_at : List (TrackedOrder D) → ℕ → Bool
  old_at orders j = is_old now max_age_ms (get_or orders j (reset_order num))

  reset_order-young : is_old now max_age_ms (reset_order num) ≡ false
  unfolding is_old reset_order
  reset_order-young = refl

  set-young :
      (orders : List (TrackedOrder D)) (i j : ℕ)
      → old_at orders j ≡ false
      → old_at (set orders i (reset_order num)) j ≡ false
  set-young orders i j young =
      ground (arith, get_or-set orders i j (reset_order num) (reset_order num), reset_order-young)

  release_leg-young :
      (leg : Option ℕ) (orders : List (TrackedOrder D)) (j : ℕ)
      → old_at orders j ≡ false
      → old_at (release_leg num leg orders) j ≡ false
  unfolding release_leg
  release_leg-young none orders j young = young
  release_leg-young (some i) orders j young = set-young orders i j young

  release_holder-young :
      (i j : ℕ) (t : OrderTracker D)
      → old_at t.orders j ≡ false
      → old_at (release_holder num i t).orders j ≡ false
  unfolding release_holder release_dual
  release_holder-young i j t young = elim (Option-cases (find_index (names_slot i) t.duals)) [
    | inl nobody ↦ ground arith
    | inr (d, found) ↦ elim (Option-cases (get_elem? t.duals d)) [
      | inl outside ↦ ground arith
      | inr (dual, here) ↦ ground (
        arith,
        release_leg-young dual.sell_idx (release_leg num dual.buy_idx t.orders) j,
        release_leg-young dual.buy_idx t.orders j,
      )
    ]
  ]

  clean_order-young :
      (i j : ℕ) (t : OrderTracker D)
      → old_at t.orders j ≡ false
      → old_at (clean_order num now max_age_ms i t).orders j ≡ false
  unfolding clean_order
  clean_order-young i j t young = elim (Option-cases (get_elem? t.orders i)) [
    | inl outside ↦ ground arith
    | inr (order, here) ↦
        ground (arith, release_holder-young i j t, set-young (release_holder num i t).orders i j)
  ]

  clean_order-cleans :
      (i : ℕ) (t : OrderTracker D) → old_at (clean_order num now max_age_ms i t).orders i ≡ false
  unfolding clean_order
  clean_order-cleans i t = elim (Option-cases (get_elem? t.orders i)) [
    | inl outside ↦ ground (arith, get_or_of_none t.orders i (reset_order num), reset_order-young)
    | inr (order, here) ↦ ground (
      arith,
      get_or_of_some t.orders i order (reset_order num) here,
      get_or-set_default (release_holder num i t).orders i (reset_order num),
      reset_order-young,
    )
  ]

  clean_orders-young :
      (n i j : ℕ) (t : OrderTracker D)
      → old_at t.orders j ≡ false
      → old_at (clean_orders num now max_age_ms n i t).orders j ≡ false
  unfolding clean_orders
  clean_orders-young zero i j t young = young
  clean_orders-young (suc n) i j t young =
      clean_orders-young n (suc i) j (clean_order num now max_age_ms i t)
        (clean_order-young i j t young)

  clean_orders-cleans :
      (n i j : ℕ) (t : OrderTracker D)
      → i ≤ j
      → j < i + n
      → old_at (clean_orders num now max_age_ms n i t).orders j ≡ false
  unfolding clean_orders
  clean_orders-cleans zero i j t le lt = absurd (omega arith)
  clean_orders-cleans (suc n) i j t le lt = elim here [
    | inl now_here ↦ clean_orders-young n (suc i) j (clean_order num now max_age_ms i t) (
        ap (λ (k : ℕ). old_at (clean_order num now max_age_ms i t).orders k) now_here
        ∙ clean_order-cleans i t)
    | inr later ↦
        clean_orders-cleans n (suc i) j (clean_order num now max_age_ms i t) later (omega arith)
  ]
    where
      here : (j ≡ i) ⊎ (suc i ≤ j)
      here = omega arith

  -- After a cleanup, no slot of the tracker holds an active order older than the limit.
  pub cleanup_stale-young :
      (t : OrderTracker D) (j : ℕ)
      → j < length t.orders
      → old_at (cleanup_stale num now max_age_ms t).orders j ≡ false
  unfolding cleanup_stale
  cleanup_stale-young t j lt =
      clean_orders-cleans (length t.orders) 0 j
        (clean_duals num now max_age_ms (length t.duals) 0 t) (omega arith) (omega arith)
