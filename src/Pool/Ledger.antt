-- ===== src/Pool/Ledger.antt =====
-- No block of a `FixedMemoryPool` is held twice, and none is lost.
use kac.Base.{
  ℕ, zero, suc, ◌+◌, ◌≤◌, ◌<◌, ◌≡◌, refl, Option, none, some, List, [], ◌∷◌, ◌==◌, ltb, arith, bit,
  if-Holds, get_elem?, set, replicate, length, length-set, get_elem?-set_self, get_elem?-set_ne,
  length-replicate, count_if, Bool-cases, inl, inr, ap, ◌∙◌, sym, ==_refl, subst,
}
use kac.Pool.{
  FixedMemoryPool, Client, Use, allocates, frees, writes, push_free, pop_from, pop_free, allocate,
  deallocate, build, new_pool, count_from, available_approx, holds, without, take_block, use_pool,
  use_all,
}

-- The blocks that the free list goes through.
pub data Chain (next : List (Option ℕ)) : Option ℕ → List ℕ → Type 0 where
  end : Chain next none []
  link :
      {i : ℕ} {rest : Option ℕ} {xs : List ℕ}
      → get_elem? next i ≡ some rest
      → Chain next rest xs
      → Chain next (some i) (i ∷ xs)

abbrev pub times : ℕ → List ℕ → ℕ
times i xs = count_if (i ==◌) xs

-- Every block is either free or held, once.
pub record IsShared (n : ℕ) (free : List ℕ) (c : Client) : Type 0 where
  pub chain : Chain c.pool.next c.pool.free_head free
  pub slots : length c.pool.next ≡ n
  pub once : (i : ℕ) → i < n → times i free + times i c.held ≡ 1
  pub nothing_else : (i : ℕ) → n ≤ i → times i free + times i c.held ≡ 0
  pub total : length free + length c.held ≡ n

-- A write to a block that is not free leaves the free list.
Chain-set :
    {next : List (Option ℕ)} {head : Option ℕ} {free : List ℕ} (i : ℕ) (v : Option ℕ)
    → times i free ≡ 0
    → Chain next head free
    → Chain (set next i v) head free
Chain-set i v absent end = end
Chain-set {next = next} i v absent (link {i = j} e rest) =
    link (get_elem?-set_ne next i j v (λ same. absurd (ground (arith, absent, same))) ∙ e)
      (Chain-set i v (ground (arith, absent)) rest)

times-without :
    (i j : ℕ) (xs : List ℕ) → 0 < times i xs → times j (without i xs) + bit (j == i) ≡ times j xs
unfolding without
times-without i j [] h = absurd (omega arith)
times-without i j (x ∷ xs) h = elim (Bool-cases (i == x)) [
  | inl same ↦ ground (arith, same)
  | inr other ↦ ground (arith, other, times-without i j xs)
]

length-without : (i : ℕ) (xs : List ℕ) → 0 < times i xs → suc (length (without i xs)) ≡ length xs
unfolding without
length-without i [] h = absurd (omega arith)
length-without i (x ∷ xs) h = ground (arith, length-without i xs)

-- What an allocation answers: a block that was free, or null when there is none.
pub data Given (n : ℕ) (c : Client) : List ℕ → Option ℕ × FixedMemoryPool → Type 0 where
  nothing :
      {pool : FixedMemoryPool}
      → IsShared n [] (take_block (none, pool) c)
      → Given n c [] (none, pool)
  given :
      (i : ℕ) (free : List ℕ) {pool : FixedMemoryPool}
      → IsShared n free (take_block (some i, pool) c)
      → Given n c (i ∷ free) (some i, pool)

module _ {n : ℕ} where
  inside : {i : ℕ} {free : List ℕ} {c : Client} → IsShared n free c → 0 < times i c.held → i < n
  inside {i = i} v h = elim (Bool-cases (ltb i n)) [
    | inl small ↦ ground (arith, small)
    | inr large ↦ absurd (ground (arith, large, v.nothing_else i, h))
  ]

  -- a block that is held is given back
  frees-IsShared :
      (i : ℕ) (free : List ℕ) (c : Client)
      → 0 < times i c.held
      → IsShared n free c
      → IsShared n (i ∷ free) (record { pool = push_free i c.pool; held = without i c.held })
  unfolding push_free
  frees-IsShared i free c h v =
      let small = inside {i = i} v h in
      record {
        chain =
            link (get_elem?-set_self c.pool.next i c.pool.free_head (omega (arith, v.slots, small)))
              (Chain-set i c.pool.free_head (omega (arith, v.once i small)) v.chain);
        slots = length-set c.pool.next i c.pool.free_head ∙ v.slots;
        once = λ j lt. omega (arith, v.once j lt, times-without i j c.held h);
        nothing_else = λ j ge. omega (arith, v.nothing_else j ge, times-without i j c.held h);
        total = omega (arith, v.total, length-without i c.held h);
      }

  writes-IsShared :
      (i : ℕ) (word : Option ℕ) (free : List ℕ) (c : Client)
      → 0 < times i c.held
      → IsShared n free c
      → IsShared n free (record c { pool = record (c.pool) { next = set c.pool.next i word } })
  writes-IsShared i word free c h v = record {
    chain = Chain-set i word (omega (arith, v.once i (inside {i = i} v h))) v.chain;
    slots = length-set c.pool.next i word ∙ v.slots;
    once = v.once;
    nothing_else = v.nothing_else;
    total = v.total;
  }

  pop_from-Given :
      (free : List ℕ) (head : Option ℕ) (c : Client)
      → c.pool.free_head ≡ head
      → IsShared n free c
      → Chain c.pool.next head free
      → Given n c free (pop_from head c.pool)
  unfolding pop_from take_block
  pop_from-Given free none c e v end = nothing v
  pop_from-Given _ (some i) c e v (link {rest = rest} {xs = xs} at chain) =
      subst
        (λ (o : Option (Option ℕ)).
          Given n c (i ∷ xs) (elim o [
            | none ↦ (none, c.pool)
            | some r ↦ (some i, record (c.pool) { free_head = r })
          ]))
        (sym at)
        (given i xs (record {
          chain = chain;
          slots = v.slots;
          once = λ j lt. omega (arith, v.once j lt);
          nothing_else = λ j ge. omega (arith, v.nothing_else j ge);
          total = omega (arith, v.total);
        }))

  allocate-Given :
      (free : List ℕ) (c : Client) → IsShared n free c → Given n c free (allocate c.pool)
  unfolding allocate pop_free
  allocate-Given free c v = pop_from-Given free c.pool.free_head c refl v v.chain

  -- what is left free after a use
  use_pool-IsShared :
      (u : Use) (free : List ℕ) (c : Client)
      → IsShared n free c
      → (left : List ℕ) × IsShared n left (use_pool u c)
  unfolding use_pool holds deallocate
  use_pool-IsShared allocates free c v = shared (allocate-Given free c v)
    where
      shared :
          {left : List ℕ} {answer : Option ℕ × FixedMemoryPool}
          → Given n c left answer
          → (rest : List ℕ) × IsShared n rest (take_block answer c)
      shared (nothing w) = ([], w)
      shared (given i xs w) = (xs, w)
  use_pool-IsShared (frees i) free c v =
      if-Holds (λ (d : Client). (left : List ℕ) × IsShared n left d) (ltb 0 (times i c.held))
        (λ mine. (i ∷ free, frees-IsShared i free c (ground (arith, mine)) v)) (λ other. (free, v))
  use_pool-IsShared (writes i word) free c v =
      if-Holds (λ (d : Client). (left : List ℕ) × IsShared n left d) (ltb 0 (times i c.held))
        (λ mine. (free, writes-IsShared i word free c (ground (arith, mine)) v))
        (λ other. (free, v))

  use_all-IsShared :
      (us : List Use) (free : List ℕ) (c : Client)
      → IsShared n free c
      → (left : List ℕ) × IsShared n left (use_all us c)
  unfolding use_all
  use_all-IsShared [] free c v = (free, v)
  use_all-IsShared (u ∷ us) free c v =
      let (left, w) = use_pool-IsShared u free c v in use_all-IsShared us left (use_pool u c) w

-- the blocks below `n`, the last one first
downward : ℕ → List ℕ
downward zero = []
downward (suc n) = n ∷ downward n

times-downward : (n i : ℕ) → (i < n → times i (downward n) ≡ 1) × (n ≤ i → times i (downward n) ≡ 0)
unfolding downward
times-downward zero i = (λ lt. absurd (omega arith), λ ge. refl)
times-downward (suc n) i = ground (arith, times-downward n i)

length-downward : (n : ℕ) → length (downward n) ≡ n
unfolding downward
length-downward zero = refl
length-downward (suc n) = ap suc (length-downward n)

-- the loop of the constructor gives back one block after the other
build-IsShared :
    {n : ℕ} (i : ℕ) (free : List ℕ) (pool : FixedMemoryPool)
    → IsShared n free (record { pool = pool; held = downward i })
    → (left : List ℕ) × IsShared n left (record { pool = build i pool; held = [] })
unfolding build downward without
build-IsShared zero free pool v = (free, v)
build-IsShared {n = n} (suc i) free pool v =
    let c : Client = record { pool = pool; held = i ∷ downward i } in
    build-IsShared i (i ∷ free) (push_free i pool) (
      subst (λ (xs : List ℕ). IsShared n (i ∷ free) (record { pool = push_free i pool; held = xs }))
        (if-Holds (λ (xs : List ℕ). xs ≡ downward i) (i == i) (λ e. refl)
          (λ e. absurd (ground (arith, e))))
        (frees-IsShared i free c (ground (arith, ==_refl i)) v))

abbrev pub fresh : ℕ → Client
fresh n = record { pool = new_pool n; held = [] }

fresh-IsShared : (n : ℕ) → (left : List ℕ) × IsShared n left (fresh n)
unfolding new_pool
fresh-IsShared n =
    build-IsShared n [] (record { next = replicate n none; free_head = none })
      (record {
        chain = end;
        slots = length-replicate n none;
        once = λ i lt. omega (arith, (times-downward n i).0 lt);
        nothing_else = λ i ge. omega (arith, (times-downward n i).1 ge);
        total = omega (arith, length-downward n);
      })

count_from-Chain :
    (fuel : ℕ) (head : Option ℕ) (free : List ℕ) (pool : FixedMemoryPool)
    → length free < fuel
    → Chain pool.next head free
    → count_from fuel head pool ≡ length free
unfolding count_from
count_from-Chain zero head free pool lt chain = absurd (omega arith)
count_from-Chain (suc fuel) none free pool lt end = refl
count_from-Chain (suc fuel) (some i) _ pool lt (link {rest = rest} {xs = xs} at chain) =
    subst
      (λ (o : Option (Option ℕ)).
        elim o [ none ↦ 1 | some r ↦ suc (count_from fuel r pool) ] ≡ suc (length xs))
      (sym at) (ap suc (count_from-Chain fuel rest xs pool (omega arith) chain))

-- What the clients of a pool of `n` blocks may rely on.
pub record Sound (n : ℕ) (c : Client) : Type 0 where
  pub single : (i : ℕ) → times i c.held ≤ 1
  pub counted : available_approx c.pool + length c.held ≡ n
  pub block : (i : ℕ) → (allocate c.pool).0 ≡ some i → (i < n) × (times i c.held ≡ 0)
  pub exhausted : (allocate c.pool).0 ≡ none → length c.held ≡ n

answers :
    {n : ℕ} {c : Client} {free : List ℕ} {answer : Option ℕ × FixedMemoryPool}
    → IsShared n free c
    → Given n c free answer
    → ((i : ℕ) → answer.0 ≡ some i → (i < n) × (times i c.held ≡ 0))
      × (answer.0 ≡ none → length c.held ≡ n)
unfolding take_block
answers v (nothing w) = (λ i e. absurd (ground (arith, e)), λ e. omega (arith, v.total))
answers {n = n} {c = c} v (given i xs w) = (
  λ j e.
      let same : i ≡ j = ground (arith, e) in
      let small : i < n = inside {i = i} w (ground (arith, ==_refl i)) in
      (
        omega (arith, same, small),
        subst (λ (k : ℕ). times k c.held ≡ 0) same (ground (arith, v.once i small, ==_refl i)),
      ),
  λ e. absurd (ground (arith, e)),
)

-- Whatever its client does with the blocks that it holds, a `FixedMemoryPool` of `n` blocks gives no
-- block that is held, gives null only when all are held, and counts the others in available_approx.
pub use_all-Sound : (n : ℕ) (us : List Use) → Sound n (use_all us (fresh n))
unfolding available_approx
use_all-Sound n us =
    let (start, w) = fresh-IsShared n in
    let (free, v) = use_all-IsShared us start (fresh n) w in
    let c = use_all us (fresh n) in
    let (block, exhausted) = answers v (allocate-Given free c v) in
    record {
      single = λ i. elim (Bool-cases (ltb i n)) [
        | inl small ↦ ground (arith, small, v.once i)
        | inr large ↦ ground (arith, large, v.nothing_else i)
      ];
      counted = omega (
        arith,
        v.total,
        v.slots,
        count_from-Chain (suc (length c.pool.next)) c.pool.free_head free c.pool
            (omega (arith, v.total, v.slots)) v.chain,
      );
      block = block;
      exhausted = exhausted;
    }
