-- ===== src/Ipc/Latest/Inv.antt =====
-- What holds of an `ShmLatestValue` between two accesses to shared memory.
use kac.Base.{
  ℕ, suc, ◌+◌, ◌-◌, ◌*◌, ◌%◌, ◌≤◌, ◌<◌, ◌≡◌, ◌≢◌, ◌⊎◌, inl, inr, refl, sym, subst, ◌∙◌, true, none,
  some, List, [], ◌∷◌, ◌++◌, ◌==◌, arith, length, get_or, set, length-set, length-append,
  get_or-set_self, get_or-set_ne, get_or-append_left, get_or-append_last, ext_get_or, Bool-cases,
  append-nil,
}
use kac.Word.{word, add64}
use kac.Ipc.Latest.{
  Cell, Writer, Reader, idle, writing, resting, reading, returned, begin_store, store_word,
  end_store, begin_load, load_word, end_load,
}
use kac.Ipc.Latest.Machine.{System, wrote, read_on}

module _ {A : Type 0} (zero_item : A) (n : ℕ) where
  -- Between stores the counter is twice the number of stores, and the cell holds the last value;
  -- within one it is odd.
  abbrev pub WriterOk : Cell A → List (List A) → Writer A → Type 0
  WriterOk c stored idle =
      (c.seq ≡ 2 * length stored)
      × (1 ≤ length stored → c.value ≡ get_or stored (length stored - 1) [])
  WriterOk c stored (writing base item done) =
      (base ≡ 2 * length stored)
      × (c.seq ≡ base + 1)
      × (base + 2 < word)
      × (length item ≡ n)
      × (done ≤ n)
      × ((j : ℕ) → j < done → get_or c.value j zero_item ≡ get_or item j zero_item)

  -- The reader began at an even count `2 * m`; while the counter stands there, the words read so
  -- far are those of the cell.
  pub record Copying (c : Cell A) (stored : List (List A)) (first : ℕ) (got : List A) : Type 0 where
    pub m : ℕ
    pub even : first ≡ 2 * m
    pub some_stored : 1 ≤ m
    pub not_ahead : m ≤ length stored
    pub room : length got ≤ n
    pub same :
        c.seq ≡ first
        → (j : ℕ) → j < length got
        → get_or got j zero_item ≡ get_or c.value j zero_item

  -- The value that the counter `first` stands for.
  abbrev pub StoredAt : List (List A) → ℕ → List A → Type 0
  StoredAt stored first item =
      (m : ℕ) × (first ≡ 2 * (m + 1)) × (m < length stored) × (item ≡ get_or stored m [])

  abbrev pub ReaderOk : Cell A → List (List A) → Reader A → Type 0
  ReaderOk c stored resting = Unit
  ReaderOk c stored (reading first got) = Copying c stored first got
  ReaderOk c stored (returned first none) = Unit
  ReaderOk c stored (returned first (some item)) = StoredAt stored first item

  pub record Inv (s : System A) : Type 0 where
    pub width : length s.cell.value ≡ n
    pub below : s.cell.seq < word
    pub writer_ok : WriterOk s.cell s.stored s.writer
    pub reader_ok : ReaderOk s.cell s.stored s.reader

  -- A change of the counter to a number that no reader began at, or that leaves the cell alone.
  reader-after :
      (c d : Cell A) (stored more : List (List A)) (r : Reader A)
      → ((m : ℕ) → m ≤ length stored → d.seq ≢ 2 * m)
      → ReaderOk c stored r
      → ReaderOk d (stored ++ more) r
  reader-after c d stored more resting h ok = tt
  reader-after c d stored more (reading first got) h ok = record {
    m = ok.m;
    even = ok.even;
    some_stored = ok.some_stored;
    not_ahead = omega (arith, ok.not_ahead, length-append stored more);
    room = ok.room;
    same = λ e. absurd (h ok.m ok.not_ahead (e ∙ ok.even));
  }
  reader-after c d stored more (returned first none) h ok = tt
  reader-after c d stored more (returned first (some item)) h (m, even, lt, e) = (
    m,
    even,
    omega (arith, length-append stored more),
    e ∙ sym (get_or-append_left stored more m [] lt),
  )

  pub starts_store-Inv :
      (s : System A) (item : List A)
      → s.writer ≡ idle
      → length item ≡ n
      → s.cell.seq + 2 < word
      → Inv s
      → Inv (wrote s (begin_store true s.cell item))
  unfolding begin_store
  starts_store-Inv s item e len few inv =
      let ok : WriterOk s.cell s.stored idle = subst (WriterOk s.cell s.stored) e inv.writer_ok in
      record {
        width = inv.width;
        below = omega arith;
        writer_ok = (ok.0, omega arith, few, len, omega arith, λ j lt. absurd (omega arith));
        reader_ok =
            subst (λ t. ReaderOk (record (s.cell) { seq = add64 s.cell.seq 1 }) t s.reader)
              (append-nil s.stored)
              (reader-after s.cell (record (s.cell) { seq = add64 s.cell.seq 1 }) s.stored []
                s.reader (λ m h odd. omega (arith, ok.0)) inv.reader_ok);
      }

  pub stores_word-Inv :
      (s : System A) (base : ℕ) (item : List A) (done : ℕ)
      → s.writer ≡ writing base item done
      → done < n
      → Inv s
      → Inv (wrote s (store_word zero_item s.cell base item done))
  unfolding store_word
  stores_word-Inv s base item done e lt inv =
      let ok : WriterOk s.cell s.stored (writing base item done) =
        subst (WriterOk s.cell s.stored) e inv.writer_ok in
      let (even, odd, few, len, at, same) = ok in
      record {
        width = length-set s.cell.value done word_done ∙ inv.width;
        below = inv.below;
        writer_ok = (even, odd, few, len, omega arith, λ j h. copied same j h);
        reader_ok =
            subst (λ t. ReaderOk after t s.reader) (append-nil s.stored)
              (reader-after s.cell after s.stored [] s.reader
                (λ m h clash. omega (arith, even, odd)) inv.reader_ok);
      }
    where
      word_done : A
      word_done = get_or item done zero_item

      after : Cell A
      after = record (s.cell) { value = set s.cell.value done word_done }

      split : (j k : ℕ) → j < suc k → (j ≡ k) ⊎ (j < k)
      split j k h = omega arith

      copied :
          ((j : ℕ) → j < done → get_or s.cell.value j zero_item ≡ get_or item j zero_item)
          → (j : ℕ) → j < suc done
          → get_or (set s.cell.value done word_done) j zero_item ≡ get_or item j zero_item
      copied same j h = elim (split j done h) [
        | inl last ↦
            rw last
              (get_or-set_self s.cell.value done word_done zero_item (omega (arith, inv.width)))
        | inr before ↦
            get_or-set_ne s.cell.value done j word_done zero_item (λ same_place. omega arith)
            ∙ same j before
      ]

  pub ends_store-Inv :
      (s : System A) (base : ℕ) (item : List A)
      → s.writer ≡ writing base item n
      → Inv s
      → Inv (record (wrote s (end_store s.cell base)) { stored = s.stored ++ item ∷ [] })
  unfolding end_store
  ends_store-Inv s base item e inv =
      let ok : WriterOk s.cell s.stored (writing base item n) =
        subst (WriterOk s.cell s.stored) e inv.writer_ok in
      let (even, odd, few, len, at, same) = ok in
      record {
        width = inv.width;
        below = omega arith;
        writer_ok = (
          omega (arith, length-append s.stored (item ∷ [])),
          λ _.
              ext_get_or zero_item s.cell.value item (inv.width ∙ sym len)
                (λ j lt. same j (omega (arith, inv.width)))
              ∙ sym (
                  get_or-append_last s.stored item (length (s.stored ++ item ∷ []) - 1) []
                    (omega (arith, length-append s.stored (item ∷ [])))),
        );
        reader_ok =
            reader-after s.cell (record (s.cell) { seq = add64 base 2 }) s.stored (item ∷ [])
              s.reader (λ m h clash. omega (arith, even)) inv.reader_ok;
      }

  -- An even counter means that no store is under way.
  at_rest :
      (c : Cell A) (stored : List (List A)) (w : Writer A)
      → WriterOk c stored w
      → c.seq % 2 ≡ 0
      → (c.seq ≡ 2 * length stored)
        × (1 ≤ length stored → c.value ≡ get_or stored (length stored - 1) [])
  at_rest c stored idle ok even = ok
  at_rest c stored (writing base item done) ok even = absurd (omega (arith, ok.0, ok.1))

  begins :
      (s : System A)
      → Inv s
      → s.cell.seq ≢ 0
      → s.cell.seq % 2 ≡ 0
      → Copying s.cell s.stored s.cell.seq []
  begins s inv ne even =
      let (count, _) = at_rest s.cell s.stored s.writer inv.writer_ok even in
      record {
        m = length s.stored;
        even = count;
        some_stored = omega (arith, count);
        not_ahead = omega arith;
        room = omega arith;
        same = λ _ j lt. absurd (omega arith);
      }

  ends :
      (s : System A) (first : ℕ) (got : List A)
      → Inv s
      → length got ≡ n
      → first ≡ s.cell.seq
      → Copying s.cell s.stored first got
      → StoredAt s.stored first got
  ends s first got inv len e ok =
      let (count, last) =
        at_rest s.cell s.stored s.writer inv.writer_ok (omega (arith, e, ok.even)) in
      (
        length s.stored - 1,
        omega (arith, e, count, ok.even, ok.some_stored),
        omega (arith, e, count, ok.even, ok.some_stored),
        ext_get_or zero_item got s.cell.value (len ∙ sym inv.width) (ok.same (sym e))
            ∙ last (omega (arith, e, count, ok.even, ok.some_stored)),
      )

  pub starts_load-Inv : (s : System A) → Inv s → Inv (read_on s (begin_load true s.cell))
  unfolding begin_load
  starts_load-Inv s inv = record {
    width = inv.width;
    below = inv.below;
    writer_ok = inv.writer_ok;
    reader_ok = elim (Bool-cases (s.cell.seq == 0)) [
      | inl never ↦ rw never tt
      | inr some_time ↦ elim (Bool-cases (s.cell.seq % 2 == 0)) [
        | inl even ↦ rw (some_time, even) (begins s inv (ground arith) (ground arith))
        | inr odd ↦ rw (some_time, odd) tt
      ]
    ];
  }

  pub loads_word-Inv :
      (s : System A) (first : ℕ) (got : List A)
      → s.reader ≡ reading first got
      → length got < n
      → Inv s
      → Inv (read_on s (load_word zero_item s.cell first got))
  unfolding load_word
  loads_word-Inv s first got e lt inv = record {
    width = inv.width;
    below = inv.below;
    writer_ok = inv.writer_ok;
    reader_ok = record {
      m = ok.m;
      even = ok.even;
      some_stored = ok.some_stored;
      not_ahead = ok.not_ahead;
      room = omega (arith, length-append got (next ∷ []));
      same = λ at j h. elim (split j (length got) (omega (arith, length-append got (next ∷ [])))) [
        | inl last ↦ rw last (get_or-append_last got next (length got) zero_item refl)
        | inr before ↦ get_or-append_left got (next ∷ []) j zero_item before ∙ ok.same at j before
      ];
    };
  }
    where
      ok : Copying s.cell s.stored first got
      ok = subst (ReaderOk s.cell s.stored) e inv.reader_ok

      next : A
      next = get_or s.cell.value (length got) zero_item

      split : (j k : ℕ) → j < suc k → (j ≡ k) ⊎ (j < k)
      split j k h = omega arith

  pub ends_load-Inv :
      (s : System A) (first : ℕ) (got : List A)
      → s.reader ≡ reading first got
      → length got ≡ n
      → Inv s
      → Inv (read_on s (end_load s.cell first got))
  unfolding end_load
  ends_load-Inv s first got e len inv = record {
    width = inv.width;
    below = inv.below;
    writer_ok = inv.writer_ok;
    reader_ok = elim (Bool-cases (first == s.cell.seq)) [
      | inl unchanged ↦ rw unchanged (
          ends s first got inv len (ground arith)
            (subst (ReaderOk s.cell s.stored) e inv.reader_ok))
      | inr changed ↦ rw changed tt
    ];
  }
