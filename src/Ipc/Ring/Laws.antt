-- ===== src/Ipc/Ring/Laws.antt =====
-- `ShmRingBuffer` against the log of everything that was pushed into it. The 64-bit counters are
-- assumed not to wrap: fewer than 2^64 pushes.
use native.Mathlib.Nat.{mod-lt, pow-le-pow_right}
use kac.Base.{
  ℕ, ◌+◌, ◌-◌, ◌%◌, ◌^◌, ◌≤◌, ◌<◌, ◌≡◌, ◌≢◌, ◌⊎◌, inl, inr, refl, sym, ap, ap₂, ◌∙◌, true, Option,
  none, some, List, [], ◌∷◌, ◌++◌, bit_and, arith, length, get_or, set, length-set, length-append,
  get_elem?-eq-get_or, get_or-set_self, get_or-set_ne, get_or-append_left, get_or-append_last,
  get_elem?, min,
}
use kac.Bits.{pow2_pos, bit_and-mask}
use kac.Word.{word, pow2_le_half}
use kac.Window.{slot-ne}
use kac.Ipc.Spsc.{Segment}
use kac.Ipc.Ring.{Handle, push, pop, pop_latest, size, run, catch_up}
use kac.Ipc.Ring.Log
use kac.Ipc.Ring.Log.{Log, Call, pushes, pops, pops_latest, pushes_in}

pub record Fits (k : ℕ) (q : Handle) : Type 0 where
  pub usable : q.valid ≡ true
  pub sized : q.capacity ≡ 2 ^ k
  pub masked : q.mask ≡ 2 ^ k - 1

-- The ring of `2^k` slots holds the newest `2^k` items of the log, each in the slot of its number.
pub record Holds {A : Type 0} (zero_item : A) (k : ℕ) (s : Segment A) (l : Log A) : Type 0 where
  pub small : k < 64
  pub slots : length s.buffer ≡ 2 ^ k
  pub counted : s.head ≡ length l.items
  pub no_wrap : length l.items < word
  pub reader : s.tail ≡ l.read
  pub behind : l.read ≤ length l.items
  pub kept :
      (i : ℕ)
      → i < length l.items
      → length l.items ≤ i + 2 ^ k
      → get_or s.buffer (i % 2 ^ k) zero_item ≡ get_or l.items i zero_item

module _ {A : Type 0} (zero_item : A) (k : ℕ) {q : Handle} {s : Segment A} {l : Log A}
    (f : Fits k q) (v : Holds zero_item k s l) where
  room : 2 ^ k ≤ 2 ^ 63
  room = pow2_le_half k v.small

  slot : (i : ℕ) → bit_and i q.mask ≡ i % 2 ^ k
  slot i = ap (bit_and i) f.masked ∙ bit_and-mask k i

  in_buffer : (i : ℕ) → i % 2 ^ k < length s.buffer
  in_buffer i = omega (arith, v.slots, pow2_pos k, mod-lt i {m = 2 ^ k})

  -- After a push the kept items are those of the longer log.
  kept-push :
      (x : A) (i : ℕ)
      → i < length l.items + 1
      → length l.items + 1 ≤ i + 2 ^ k
      → get_or (set s.buffer (length l.items % 2 ^ k) x) (i % 2 ^ k) zero_item
        ≡ get_or (l.items ++ x ∷ []) i zero_item
  kept-push x i lt near = elim (split i (length l.items) (omega arith)) [
    | inl old ↦
        get_or-set_ne s.buffer (length l.items % 2 ^ k) (i % 2 ^ k) x zero_item (other old)
        ∙ v.kept i old (omega arith)
        ∙ sym (get_or-append_left l.items (x ∷ []) i zero_item old)
    | inr new ↦
        ap (λ (j : ℕ). get_or (set s.buffer (length l.items % 2 ^ k) x) (j % 2 ^ k) zero_item) new
        ∙ get_or-set_self s.buffer (length l.items % 2 ^ k) x zero_item (in_buffer (length l.items))
        ∙ sym (get_or-append_last l.items x i zero_item new)
  ]
    where
      split : (i n : ℕ) → i ≤ n → (i < n) ⊎ (i ≡ n)
      split i n h = omega arith

      other : i < length l.items → length l.items % 2 ^ k ≢ i % 2 ^ k
      other old e =
          slot-ne (2 ^ k) i (length l.items - i) (omega arith) (omega arith)
            (sym e ∙ ap (λ (n : ℕ). n % 2 ^ k) (omega arith))

  push-eq :
      (x : A)
      → length l.items + 1 < word
      → push q s x
        ≡ record s { buffer = set s.buffer (length l.items % 2 ^ k) x; head = length l.items + 1 }
  unfolding push
  push-eq x fits = ground (arith, f.usable, v.counted, slot s.head)

  -- A push extends the log by the item, whatever the reader has done.
  pub push-Holds :
      (x : A) → length l.items + 1 < word → Holds zero_item k (push q s x) (Log.push l x)
  push-Holds x fits = rw (push-eq x fits) (record {
    small = v.small;
    slots = length-set s.buffer (length l.items % 2 ^ k) x ∙ v.slots;
    counted = omega (arith, length-append l.items (x ∷ []));
    no_wrap = omega (arith, length-append l.items (x ∷ []));
    reader = v.reader;
    behind = omega (arith, v.behind, length-append l.items (x ∷ []));
    kept = λ i lt near.
        kept-push x i (omega (arith, length-append l.items (x ∷ [])))
          (omega (arith, length-append l.items (x ∷ [])));
  })

  -- A slot among the newest `2^k` yields the item of its number.
  read_slot :
      (i : ℕ)
      → i < length l.items
      → length l.items ≤ i + 2 ^ k
      → get_elem? s.buffer (bit_and i q.mask) ≡ get_elem? l.items i
  read_slot i lt near =
      ap (get_elem? s.buffer) (slot i)
      ∙ get_elem?-eq-get_or s.buffer (i % 2 ^ k) zero_item (in_buffer i)
      ∙ ap some (v.kept i lt near)
      ∙ sym (get_elem?-eq-get_or l.items i zero_item lt)

  -- Moving the reader within the log keeps the ring and the log together.
  moved :
      (t : ℕ)
      → t ≤ length l.items
      → Holds zero_item k (record s { tail = t }) (record l { read = t })
  moved t h = record {
    small = v.small;
    slots = v.slots;
    counted = v.counted;
    no_wrap = v.no_wrap;
    reader = refl;
    behind = h;
    kept = v.kept;
  }

  -- What a ring operation and its log operation give must agree on the item and leave a ring that
  -- holds the new log.
  abbrev pub Agrees : Option A × Segment A → Option A × Log A → Type 0
  Agrees r m = (r.0 ≡ m.0) × Holds zero_item k r.1 m.1

  catch_up-eq : 1 ≤ k → l.read < length l.items → catch_up q s ≡ Log.position (2 ^ k - 1) l
  unfolding catch_up
  catch_up-eq two more = ground (arith, f.masked, v.counted, v.reader, v.no_wrap, room, pow2_pos k)

  position-bounds :
      1 ≤ k
      → l.read < length l.items
      → (Log.position (2 ^ k - 1) l < length l.items)
        × (length l.items ≤ Log.position (2 ^ k - 1) l + 2 ^ k)
  position-bounds two more = omega (arith, two_slots two)
    where
      two_slots : 1 ≤ k → 2 ≤ 2 ^ k
      two_slots h = pow-le-pow_right (omega arith) {i = 1} {j = k} h

  pop-unread :
      1 ≤ k
      → l.read < length l.items
      → let at = Log.position (2 ^ k - 1) l in
        pop q s ≡ (get_elem? l.items at, record s { tail = at + 1 })
  unfolding pop
  pop-unread two more = ground (
    arith,
    f.usable,
    v.counted,
    v.reader,
    v.no_wrap,
    catch_up-eq two more,
    position-bounds two more,
    read_slot (Log.position (2 ^ k - 1) l),
  )

  pop_latest-unread :
      l.read < length l.items
      → pop_latest q s
        ≡ (get_elem? l.items (length l.items - 1), record s { tail = length l.items })
  unfolding pop_latest
  pop_latest-unread more =
      ground (
        arith,
        f.usable,
        v.counted,
        v.reader,
        v.no_wrap,
        pow2_pos k,
        read_slot (length l.items - 1),
      )

  all_read : length l.items ≤ l.read → (pop q s ≡ (none, s)) × (pop_latest q s ≡ (none, s))
  unfolding pop pop_latest
  all_read done = ground (arith, f.usable, v.counted, v.reader)

  order : (l.read < length l.items) ⊎ (length l.items ≤ l.read)
  order = omega arith

  -- With at least two slots, `pop` returns the next unread item that is among the newest
  -- `2^k - 1`, and moves the reader behind it.
  pub pop-Agrees : 1 ≤ k → Agrees (pop q s) (Log.pop (2 ^ k - 1) l)
  unfolding Log.pop
  pop-Agrees two = elim order [
    | inl more ↦
        rw (pop-unread two more, log_pop more)
          (refl, moved (Log.position (2 ^ k - 1) l + 1) (omega (arith, position-bounds two more)))
    | inr done ↦ rw ((all_read done).0, log_done done) (refl, v)
  ]
    where
      log_pop :
          l.read < length l.items
          → let at = Log.position (2 ^ k - 1) l in
            Log.pop (2 ^ k - 1) l ≡ (get_elem? l.items at, record l { read = at + 1 })
      log_pop more = ground arith

      log_done : length l.items ≤ l.read → Log.pop (2 ^ k - 1) l ≡ (none, l)
      log_done done = ground arith

  -- `pop_latest` returns the newest item if one is unread, and leaves nothing unread.
  pub pop_latest-Agrees : Agrees (pop_latest q s) (Log.pop_latest l)
  unfolding Log.pop_latest
  pop_latest-Agrees = elim order [
    | inl more ↦
        rw (pop_latest-unread more, log_pop more) (refl, moved (length l.items) (omega arith))
    | inr done ↦ rw ((all_read done).1, log_done done) (refl, v)
  ]
    where
      log_pop :
          l.read < length l.items
          → Log.pop_latest l
            ≡ (get_elem? l.items (length l.items - 1), record l { read = length l.items })
      log_pop more = ground arith

      log_done : length l.items ≤ l.read → Log.pop_latest l ≡ (none, l)
      log_done done = ground arith

  -- `size()` is the number of unread items, but at most the capacity.
  pub size-eq : size q s ≡ min (length l.items - l.read) (2 ^ k)
  unfolding size
  size-eq = ground (arith, f.usable, f.sized, v.counted, v.reader, v.no_wrap, v.behind)

-- Any sequence of calls on a ring of at least two slots returns what the log returns.
pub run_refines_log :
    {A : Type 0} (zero_item : A) (k : ℕ) {p c : Handle} (cs : List (Call A)) {s : Segment A}
    {l : Log A}
    → Fits k p
    → Fits k c
    → 1 ≤ k
    → Holds zero_item k s l
    → length l.items + pushes_in cs < word
    → run p c s cs ≡ Log.run (2 ^ k - 1) l cs
unfolding run Log.run
run_refines_log z k [] f g two v few = refl
run_refines_log z k (pushes x ∷ cs) {l = l} f g two v few =
    run_refines_log z k cs f g two (push-Holds z k f v x (omega arith))
      (omega (arith, length-append l.items (x ∷ [])))
run_refines_log z k (pops ∷ cs) {l = l} f g two v few =
    let (item, next) = pop-Agrees z k g v two in
    ap₂ ◌∷◌ item
      (run_refines_log z k cs f g two next (omega (arith, ap length (Log.items-pop (2 ^ k - 1) l))))
run_refines_log z k (pops_latest ∷ cs) {l = l} f g two v few =
    let (item, next) = pop_latest-Agrees z k g v in
    ap₂ ◌∷◌ item
      (run_refines_log z k cs f g two next (omega (arith, ap length (Log.items-pop_latest l))))
