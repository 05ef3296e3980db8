-- ===== src/Ipc/Latest/Machine.antt =====
-- The writer and the reader of a `ShmLatestValue` of `n` words, interleaved in any order.
use kac.Base.{ℕ, ◌+◌, ◌<◌, ◌≡◌, List, [], ◌∷◌, ◌++◌, true, length}
use kac.Word.{word}
use kac.Ipc.Latest.{
  Cell, Writer, Reader, idle, writing, reading, begin_store, store_word, end_store, begin_load,
  load_word, end_load,
}

-- `stored` are the values whose `store` has ended, oldest first. The program does not keep it.
pub record System (A : Type 0) : Type 0 where
  pub cell : Cell A
  pub writer : Writer A
  pub reader : Reader A
  pub stored : List (List A)

module _ {A : Type 0} where
  -- The system after an access of the writer, or of the reader.
  abbrev pub wrote : System A → Cell A × Writer A → System A
  wrote s r = record s { cell = r.0; writer = r.1 }

  abbrev pub read_on : System A → Reader A → System A
  read_on s r = record s { reader = r }

  -- The reader may call `load` again and again; the counter is not driven to its limit.
  pub data Step (zero_item : A) (n : ℕ) : System A → System A → Type 0 where
    starts_store :
        (s : System A) (item : List A)
        → s.writer ≡ idle
        → length item ≡ n
        → s.cell.seq + 2 < word
        → Step zero_item n s (wrote s (begin_store true s.cell item))
    stores_word :
        (s : System A) (base : ℕ) (item : List A) (done : ℕ)
        → s.writer ≡ writing base item done
        → done < n
        → Step zero_item n s (wrote s (store_word zero_item s.cell base item done))
    ends_store :
        (s : System A) (base : ℕ) (item : List A)
        → s.writer ≡ writing base item n
        → Step zero_item n s
            (record (wrote s (end_store s.cell base)) { stored = s.stored ++ item ∷ [] })
    starts_load : (s : System A) → Step zero_item n s (read_on s (begin_load true s.cell))
    loads_word :
        (s : System A) (first : ℕ) (got : List A)
        → s.reader ≡ reading first got
        → length got < n
        → Step zero_item n s (read_on s (load_word zero_item s.cell first got))
    ends_load :
        (s : System A) (first : ℕ) (got : List A)
        → s.reader ≡ reading first got
        → length got ≡ n
        → Step zero_item n s (read_on s (end_load s.cell first got))

  pub data Reach (zero_item : A) (n : ℕ) (s : System A) : System A → Type 0 where
    here : Reach zero_item n s s
    later : {t u : System A} → Reach zero_item n s t → Step zero_item n t u → Reach zero_item n s u
