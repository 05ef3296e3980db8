-- ===== src/Ipc/Latest/Tests.antt =====
-- A run of the writer and the reader of a value of two words, and the theorem at its end.
use kac.Base.{ℕ, ◌+◌, ◌*◌, ◌<◌, ◌≡◌, refl, some, List, [], ◌∷◌, arith, get_or}
use kac.Ipc.Latest.{
  idle, resting, returned, begin_store, store_word, end_store, begin_load, load_word, end_load,
}
use kac.Ipc.Latest.Machine.{
  System, Reach, here, later, starts_store, stores_word, ends_store, starts_load, loads_word,
  ends_load,
}
use kac.Ipc.Latest.Safety.{start, load_not_torn}

abbrev item : List ℕ
item = 5 ∷ 6 ∷ []

abbrev stored_one : System ℕ
stored_one = record {
  cell = record { seq = 2; value = item };
  writer = idle;
  reader = resting;
  stored = item ∷ [];
}

stores_once : Reach 0 2 (start 0 2) stored_one
unfolding begin_store store_word end_store
stores_once =
    later
      (later
        (later (later here (starts_store (start 0 2) item refl refl (omega arith)))
          (stores_word _ 0 item 0 refl (omega arith)))
        (stores_word _ 0 item 1 refl (omega arith)))
      (ends_store _ 0 item refl)

abbrev loaded : System ℕ
loaded = record stored_one { reader = returned 2 (some item) }

loads_once : Reach 0 2 (start 0 2) loaded
unfolding begin_load load_word end_load
loads_once =
    later
      (later
        (later (later stores_once (starts_load stored_one)) (loads_word _ 2 [] refl (omega arith)))
        (loads_word _ 2 (5 ∷ []) refl (omega arith)))
      (ends_load _ 2 item refl refl)

load_not_torn_example : (m : ℕ) × (2 ≡ 2 * (m + 1)) × (m < 1) × (item ≡ get_or (item ∷ []) m [])
load_not_torn_example = load_not_torn 0 2 loads_once 2 item refl
