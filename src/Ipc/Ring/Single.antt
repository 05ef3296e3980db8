-- ===== src/Ipc/Ring/Single.antt =====
-- A `ShmRingBuffer` of one slot, which the factories accept.
use kac.Base.{
  ℕ, zero, suc, ◌+◌, ◌<◌, ◌≡◌, refl, ap, ◌∙◌, Option, none, some, List, [], ◌∷◌, ◌++◌, bit_and,
  arith, length, set, length-set, get_elem?, replicate,
}
use kac.Bits.{bit_and-mask}
use kac.Word.{word}
use kac.Ipc.Spsc.{Segment}
use kac.Ipc.Ring.{Handle, push, pop, run, catch_up}
use kac.Ipc.Ring.Log.{Log, Call, pushes, pops}
use kac.Ipc.Ring.Laws.{Fits, Holds}

first_slot : {q : Handle} → Fits 0 q → (i : ℕ) → bit_and i q.mask ≡ 0
first_slot f i = ap (bit_and i) f.masked ∙ bit_and-mask 0 i ∙ omega arith

module _ {A : Type 0} {c : Handle} (g : Fits 0 c) where
  -- A reader at the writer's position finds nothing, and stays there.
  pop_level : (t : Segment A) → t.head ≡ t.tail → pop c t ≡ (none, t)
  unfolding pop
  pop_level t level = ground (arith, g.usable)

  pops_idle :
      (p : Handle) (t : Segment A) (n : ℕ) (cs : List (Call A))
      → t.head ≡ t.tail
      → run p c t (replicate n pops ++ cs) ≡ replicate n none ++ run p c t cs
  unfolding run
  pops_idle p t zero cs level = refl
  pops_idle p t (suc n) cs level =
      ap (λ (r : Option A × Segment A). r.0 ∷ run p c r.1 (replicate n pops ++ cs))
        (pop_level t level)
      ∙ ap (none ∷◌) (pops_idle p t n cs level)

  pop_waiting :
      (u : Segment A)
      → u.tail < u.head
      → (pop c u).0 ≡ get_elem? u.buffer (bit_and (catch_up c u) c.mask)
  unfolding pop
  pop_waiting u more = ground (arith, g.usable)

  push_first :
      {p : Handle} (t : Segment A) (y : A)
      → Fits 0 p
      → t.head + 1 < word
      → push p t y ≡ record t { buffer = set t.buffer 0 y; head = t.head + 1 }
  unfolding push
  push_first t y f few = ground (arith, f.usable, first_slot f t.head)

  get_elem?-set_first : (b : List A) (y : A) → length b ≡ 1 → get_elem? (set b 0 y) 0 ≡ some y
  get_elem?-set_first [] y one = absurd (omega arith)
  get_elem?-set_first (x ∷ xs) y one = refl

  -- An item that is pushed for such a reader is read next.
  pop-push_level :
      {p : Handle} (t : Segment A) (y : A)
      → Fits 0 p
      → length t.buffer ≡ 1
      → t.head ≡ t.tail
      → t.head + 1 < word
      → (pop c (push p t y)).0 ≡ some y
  pop-push_level t y f one level few =
      let u : Segment A = record t { buffer = set t.buffer 0 y; head = t.head + 1 } in
      ap (λ (r : Segment A). (pop c r).0) (push_first t y f few)
      ∙ pop_waiting u (omega arith)
      ∙ ap (get_elem? u.buffer) (first_slot g (catch_up c u))
      ∙ get_elem?-set_first t.buffer y one

  -- A reader that lags takes the newest item and moves one position past the writer.
  pop_past :
      (s : Segment A)
      → s.tail < s.head
      → s.head + 2 < word
      → (pop c s).1 ≡ record s { tail = s.head + 1 }
  unfolding pop catch_up
  pop_past s more few = ground (arith, g.usable, g.masked)

-- With one slot, `pop` moves the reader one position past the writer. Whatever is pushed next is
-- lost: every `pop` before the push that follows answers none, and the `pop` after that push
-- answers its item.
pub single_slot_skips :
    {A : Type 0} (zero_item x y : A) (n : ℕ) {p c : Handle} {s : Segment A} {l : Log A}
    → Fits 0 p
    → Fits 0 c
    → Holds zero_item 0 s l
    → l.read < length l.items
    → length l.items + 2 < word
    → run p c s (pops ∷ pushes x ∷ (replicate n pops ++ pushes y ∷ pops ∷ []))
      ≡ (pop c s).0 ∷ (replicate n none ++ some y ∷ [])
unfolding run
single_slot_skips {A} z x y n {p} {c} {s} f g v more few =
    let lost : Segment A = record s {
      buffer = set s.buffer 0 x;
      head = s.head + 1;
      tail = s.head + 1;
    } in
    let after : push p (pop c s).1 x ≡ lost =
      ap (λ (t : Segment A). push p t x)
        (pop_past g s (omega (arith, v.counted, v.reader)) (omega (arith, v.counted)))
      ∙ push_first g (record s { tail = s.head + 1 }) x f (omega (arith, v.counted)) in
    ap ((pop c s).0 ∷◌) (
      ap (λ (t : Segment A). run p c t (replicate n pops ++ pushes y ∷ pops ∷ [])) after
      ∙ pops_idle g p lost n (pushes y ∷ pops ∷ []) refl
      ∙ ap (λ (o : Option A). replicate n none ++ o ∷ [])
          (pop-push_level g lost y f (length-set s.buffer 0 x ∙ v.slots) refl
            (omega (arith, v.counted))))
