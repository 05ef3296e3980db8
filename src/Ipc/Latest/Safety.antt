-- ===== src/Ipc/Latest/Safety.antt =====
-- No torn read: what `load` returns is a value that was stored as a whole.
use kac.Base.{
  ℕ, ◌+◌, ◌*◌, ◌<◌, ◌≡◌, refl, subst, some, List, [], arith, length, get_or, replicate,
  length-replicate,
}
use kac.Ipc.Latest.{idle, resting, returned}
use kac.Ipc.Latest.Machine.{
  System, Step, Reach, here, later, starts_store, stores_word, ends_store, starts_load, loads_word,
  ends_load,
}
use kac.Ipc.Latest.Inv.{
  Inv, ReaderOk, starts_store-Inv, stores_word-Inv, ends_store-Inv, starts_load-Inv, loads_word-Inv,
  ends_load-Inv,
}

module _ {A : Type 0} (zero_item : A) (n : ℕ) where
  -- Every access keeps the invariant.
  pub Step-Inv : {s t : System A} → Step zero_item n s t → Inv zero_item n s → Inv zero_item n t
  Step-Inv (starts_store s item e len few) inv = starts_store-Inv zero_item n s item e len few inv
  Step-Inv (stores_word s base item done e lt) inv =
      stores_word-Inv zero_item n s base item done e lt inv
  Step-Inv (ends_store s base item e) inv = ends_store-Inv zero_item n s base item e inv
  Step-Inv (starts_load s) inv = starts_load-Inv zero_item n s inv
  Step-Inv (loads_word s first got e lt) inv = loads_word-Inv zero_item n s first got e lt inv
  Step-Inv (ends_load s first got e len) inv = ends_load-Inv zero_item n s first got e len inv

  Reach-Inv : {s t : System A} → Reach zero_item n s t → Inv zero_item n s → Inv zero_item n t
  Reach-Inv here inv = inv
  Reach-Inv (later r st) inv = Step-Inv st (Reach-Inv r inv)

  -- The producer has set up the segment, and neither side has begun.
  abbrev pub start : System A
  start = record {
    cell = record { seq = 0; value = replicate n zero_item };
    writer = idle;
    reader = resting;
    stored = [];
  }

  start-Inv : Inv zero_item n start
  start-Inv = record {
    width = length-replicate n zero_item;
    below = omega arith;
    writer_ok = (refl, λ h. absurd (omega arith));
    reader_ok = tt;
  }

  -- However the accesses interleave, a value that `load` returns was stored as a whole, and it is
  -- the one that the counter read first stands for: the newest when the call began.
  pub load_not_torn :
      {t : System A}
      → Reach zero_item n start t
      → (first : ℕ) (item : List A) → t.reader ≡ returned first (some item)
      → (m : ℕ) × (first ≡ 2 * (m + 1)) × (m < length t.stored) × (item ≡ get_or t.stored m [])
  load_not_torn {t} r first item e =
      subst (ReaderOk zero_item n t.cell t.stored) e (Reach-Inv r start-Inv).reader_ok
