-- ===== src/Lockfree/Mpsc/Push.antt =====
-- An access of a producer of `MPSCQueue` keeps the invariant.
use native.Mathlib.Nat.{pow-le-pow_right, add-mod_right}
use kac.Base.{
  ℕ, ◌+◌, ◌%◌, ◌^◌, ◌≤◌, ◌<◌, ◌≡◌, ◌≢◌, ◌⊎◌, inl, inr, refl, sym, ap, subst, ◌∙◌, Bool, true, false,
  not, ◌&&◌, none, some, List, [], ◌∷◌, ◌++◌, ◌==◌, ltb, arith, Bool-cases, ==_refl,
}
use kac.Bits.{pow2_pos}
use kac.Word.{word, add64}
use kac.Lockfree.Mpsc.{
  Queue, Producer, outside, at_turn, at_cas, reloading, claimed, filled, returned, update, slot,
  begin_push, check_turn, step_push,
}
use kac.Lockfree.Mpsc.Machine.{System, won}
use kac.Lockfree.Mpsc.Inv.{
  Slot, published, taken, free, Owned, ProducerOk, ConsumerOk, owns, Sound, Inv, slot-mod,
  update_same, update_other,
}
use kac.Lockfree.Mpsc.Win.{after_win, win-Sound, win-new, win-ProducerOk, win-ConsumerOk}
use kac.Lockfree.Mpsc.Publish.{
  after_fill, fill-Sound, fill-new, fill-ProducerOk, fill-ConsumerOk, after_publish, publish-Sound,
  publish-ProducerOk, publish-ConsumerOk,
}

module _ {A : Type 0} (filler : A) (k : ℕ) where
  -- A producer moves on: what must hold of it, of the others and of the consumer.
  producer_moves :
      (s : System A) (i : ℕ) (q : Queue A) (log : List A) (w : Producer A)
      → Inv filler k s
      → Sound filler k q log s.out
      → ProducerOk filler k q log w
      → ((j : ℕ) → i ≢ j → ProducerOk filler k q log (s.producer j))
      → ((p : ℕ)
          → owns filler k w ≡ some p
          → (owns filler k (s.producer i) ≡ some p)
            ⊎ ((j : ℕ) → i ≢ j → owns filler k (s.producer j) ≢ some p))
      → ConsumerOk filler k q log s.consumer
      → Inv filler k (record s { queue = q; producer = update s.producer i w; log = log })
  producer_moves s i q log w inv sound mine others fresh consumer = record {
    sound = sound;
    producers = λ j. elim (order i j) [
      | inl e ↦ subst (ProducerOk filler k q log) (sym (update_same s.producer i j w e)) mine
      | inr ne ↦
          subst (ProducerOk filler k q log) (sym (update_other s.producer i j w ne)) (others j ne)
    ];
    unique = alone;
    consumer_ok = consumer;
  }
    where
      order : (a b : ℕ) → (a ≡ b) ⊎ (a ≢ b)
      order a b = omega arith

      -- what a producer owns after the move, by whether it is the one that moved
      hit :
          (j p : ℕ)
          → i ≡ j
          → owns filler k (update s.producer i w j) ≡ some p
          → owns filler k w ≡ some p
      hit j p e h = subst (λ x. owns filler k x ≡ some p) (update_same s.producer i j w e) h

      miss :
          (j p : ℕ)
          → i ≢ j
          → owns filler k (update s.producer i w j) ≡ some p
          → owns filler k (s.producer j) ≡ some p
      miss j p ne h = subst (λ x. owns filler k x ≡ some p) (update_other s.producer i j w ne) h

      meets : (j p : ℕ) → i ≢ j → owns filler k w ≡ some p → owns filler k (s.producer j) ≢ some p
      meets j p ne h other = elim (fresh p h) [
        | inl old ↦ ne (inv.unique i j p old other)
        | inr new ↦ new j ne other
      ]

      alone :
          (a b p : ℕ)
          → owns filler k (update s.producer i w a) ≡ some p
          → owns filler k (update s.producer i w b) ≡ some p
          → a ≡ b
      alone a b p ha hb = elim (order i a) [
        | inl ea ↦ elim (order i b) [
          | inl eb ↦ sym ea ∙ eb
          | inr nb ↦ absurd (meets b p nb (hit a p ea ha) (miss b p nb hb))
        ]
        | inr na ↦ elim (order i b) [
          | inl eb ↦ absurd (meets a p na (hit b p eb hb) (miss a p na ha))
          | inr nb ↦ inv.unique a b p (miss a p na ha) (miss b p nb hb)
        ]
      ]

  -- A producer that reads only, and owns nothing afterwards.
  pub reads :
      (s : System A) (i : ℕ) (w : Producer A)
      → Inv filler k s
      → ProducerOk filler k s.queue s.log w
      → owns filler k w ≡ none
      → Inv filler k (record s { producer = update s.producer i w })
  reads s i w inv ok none_owned =
      producer_moves s i s.queue s.log w inv inv.sound ok (λ j _. inv.producers j)
        (λ p h. absurd (cc)) inv.consumer_ok

  -- With two slots or more, the slot of `head` shows `head` as its turn only if it is free.
  room_at_head :
      (q : Queue A) (log out : List A)
      → 1 ≤ k
      → Sound filler k q log out
      → q.turn (q.head % 2 ^ k) ≡ q.head
      → q.head < q.tail + 2 ^ k
  room_at_head q log out two v e = elim order [
    | inl lt ↦ lt
    | inr full ↦ absurd (go full (v.slots q.tail (omega arith) (omega (arith, pow2_pos k))))
  ]
    where
      order : (q.head < q.tail + 2 ^ k) ⊎ (q.head ≡ q.tail + 2 ^ k)
      order = omega (arith, v.bounded)

      two_slots : 2 ≤ 2 ^ k
      two_slots = pow-le-pow_right (omega arith) {i = 1} {j = k} two

      same_slot : q.head ≡ q.tail + 2 ^ k → q.turn (q.tail % 2 ^ k) ≡ q.head
      same_slot full =
          ap q.turn (sym (add-mod_right q.tail (2 ^ k)) ∙ ap (λ (n : ℕ). n % 2 ^ k) (sym full)) ∙ e

      go : q.head ≡ q.tail + 2 ^ k → Slot filler k q log q.tail → ⊥
      go full (published lt t d) = omega (arith, two_slots, t, same_slot full)
      go full (taken lt t) = omega (arith, two_slots, t, same_slot full)
      go full (free le t) = omega (arith, two_slots, t, same_slot full)

  check_turn-ok :
      (s : System A) (item : A) (p : ℕ)
      → 1 ≤ k
      → Inv filler k s
      → p ≤ s.queue.head
      → ProducerOk filler k s.queue s.log (check_turn s.queue item p)
        × (owns filler k (check_turn s.queue item p) ≡ none)
  unfolding check_turn
  check_turn-ok s item p two inv le = elim (Bool-cases (s.queue.turn (slot s.queue p) == p)) [
    | inl e ↦ rw (e, check_turn) ((le, passes e), refl)
    | inr e ↦ elim (Bool-cases (ltb (s.queue.turn (slot s.queue p)) p)) [
      | inl f ↦ rw (e, f, check_turn) (tt, refl)
      | inr f ↦ rw (e, f, check_turn) (tt, refl)
    ]
  ]
    where
      v : Sound filler k s.queue s.log s.out
      v = inv.sound

      passes :
          (s.queue.turn (slot s.queue p) == p) ≡ true
          → p ≡ s.queue.head
          → s.queue.head < s.queue.tail + 2 ^ k
      passes e last =
          let turn : s.queue.turn (slot s.queue p) ≡ p = ground arith in
          room_at_head s.queue s.log s.out two v (
            ap (λ (n : ℕ). s.queue.turn (n % 2 ^ k)) (sym last)
            ∙ ap s.queue.turn (sym (slot-mod filler k v p))
            ∙ turn
            ∙ last)

  -- The exchange succeeds: the producer now owns the position.
  cas_wins :
      (s : System A) (i : ℕ) (fails : Bool) (x : A) (p : ℕ)
      → 1 ≤ k
      → s.queue.head + 1 + 2 ^ k < word
      → Inv filler k s
      → ProducerOk filler k s.queue s.log (at_cas x p)
      → (not fails && s.queue.head == p) ≡ true
      → let (q, w) = step_push fails s.queue (at_cas x p) in
        Inv filler k (record s {
          queue = q;
          producer = update s.producer i w;
          log = won (at_cas x p) s.queue q s.log;
        })
  unfolding step_push
  cas_wins s i fails x p two few inv ok c =
      rw (c, one_up, moved)
        (producer_moves s i (after_win filler k v) (s.log ++ x ∷ []) (claimed x p) inv
          (win-Sound filler k v x room few)
          (subst (Owned filler k (after_win filler k v) (s.log ++ x ∷ []) x) at_head
            (win-new filler k v x room few))
          (λ j ne. win-ProducerOk filler k v x room few (s.producer j) (inv.producers j))
          (λ r h. inr (λ j ne other. new_position (s.producer j) (inv.producers j) r h other))
          (win-ConsumerOk filler k v x room few s.consumer inv.consumer_ok))
    where
      v : Sound filler k s.queue s.log s.out
      v = inv.sound

      at_head : s.queue.head ≡ p
      at_head = ground (arith, c)

      room : s.queue.head < s.queue.tail + 2 ^ k
      room = ok.1 (sym at_head)

      one_up : add64 p 1 ≡ s.queue.head + 1
      one_up = omega (arith, at_head, few)

      moved : (s.queue.head == s.queue.head + 1) ≡ false
      moved = ground arith

      new_position :
          (w : Producer A)
          → ProducerOk filler k s.queue s.log w
          → (r : ℕ) → owns filler k (claimed x p) ≡ some r
          → owns filler k w ≢ some r
      new_position outside ok r h o = cc
      new_position (at_turn item a) ok r h o = cc
      new_position (at_cas item a) ok r h o = cc
      new_position (reloading item) ok r h o = cc
      new_position (claimed item a) ok r h o =
          let same : a ≡ p = cc in omega (arith, same, at_head, ok.to_head)
      new_position (filled item a) ok r h o =
          let same : a ≡ p = cc in omega (arith, same, at_head, ok.0.to_head)
      new_position (returned done) ok r h o = cc

  -- The next access of producer `i`, which stands at `w`.
  pub push-Inv :
      (s : System A) (i : ℕ) (fails : Bool) (w : Producer A)
      → s.producer i ≡ w
      → 1 ≤ k
      → s.queue.head + 1 + 2 ^ k < word
      → Inv filler k s
      → ProducerOk filler k s.queue s.log w
      → let (q, p) = step_push fails s.queue w in
        Inv filler k
          (record s { queue = q; producer = update s.producer i p; log = won w s.queue q s.log })
  unfolding step_push begin_push
  push-Inv s i fails outside e two few inv ok = reads s i outside inv tt refl
  push-Inv s i fails (at_turn x p) e two few inv ok =
      let (good, nothing) = check_turn-ok s x p two inv ok in
      reads s i (check_turn s.queue x p) inv good nothing
  push-Inv s i fails (at_cas x p) e two few inv ok =
      elim (Bool-cases (not fails && s.queue.head == p)) [
        | inl c ↦ cas_wins s i fails x p two few inv ok c
        | inr c ↦
            rw (c, ==_refl s.queue.head) (reads s i (at_turn x s.queue.head) inv (omega arith) refl)
      ]
  push-Inv s i fails (reloading x) e two few inv ok =
      reads s i (at_turn x s.queue.head) inv (omega arith) refl
  push-Inv s i fails (claimed x p) e two few inv ok = rw (slot-mod filler k inv.sound p) (
      producer_moves s i (after_fill filler k inv.sound x p ok) s.log (filled x p) inv
        (fill-Sound filler k inv.sound x p ok) (fill-new filler k inv.sound x p ok)
        (λ j ne.
          fill-ProducerOk filler k inv.sound x p ok (s.producer j)
            (λ h. ne (inv.unique i j p (rw e refl) h)) (inv.producers j))
        (λ r h. inl (rw e h))
        (fill-ConsumerOk filler k inv.sound x p ok s.consumer inv.consumer_ok))
  push-Inv s i fails (filled x p) e two few inv ok =
      rw (slot-mod filler k inv.sound p, one_up)
        (producer_moves s i (after_publish filler k inv.sound x p ok.0) s.log (returned true) inv
          (publish-Sound filler k inv.sound x p ok.0 ok.1) tt
          (λ j ne.
            publish-ProducerOk filler k inv.sound x p ok.0 (s.producer j)
              (λ h. ne (inv.unique i j p (rw e refl) h)) (inv.producers j))
          (λ r h. absurd (cc))
          (publish-ConsumerOk filler k inv.sound x p ok.0 s.consumer inv.consumer_ok))
    where
      one_up : add64 p 1 ≡ p + 1
      one_up = omega (arith, ok.0.to_head, inv.sound.no_wrap)
  push-Inv s i fails (returned done) e two few inv ok = reads s i (returned done) inv tt refl
