-- ===== src/Symbols/Entries.antt =====
-- Categories and sensitivities written, read back and entered in their table.
use ap_policy.Common.{
  ℕ, ◌+◌, ◌-◌, ◌%◌, ◌^◌, ◌<◌, ◌≡◌, ◌≢◌, refl, sym, ap, ◌∙◌, some, none, List, [], ◌++◌, arith,
  length, length-append,
}
use ap_policy.Common.Results.{Result, ok}
use ap_policy.PolicyFile.{le_bytes, le_word, taken, behind, Source, Target}
use ap_policy.PolicyFile.Words.{
  length-le_bytes, memory, next_entry-append, target, append_assoc, append_nil,
}
use ap_policy.Ebitmap.Binary.RoundTrip.{bitmap_size}
use ap_policy.Mls.Binary.OneLevel.{
  IsStored, level_bytes, level_there, level_back, length-level_bytes,
}
use ap_policy.Hashtab.{u32_mod, Sign, Entry, Hashtab, search}
use ap_policy.Hashtab.Chain.{none-ne-some}
use ap_policy.Hashtab.Laws.{IsValid, Changed, inserted, refused, full, insert-Insertion}
use ap_policy.Hashtab.Symtab.{CString, StrcmpLaws, sym_ops, symtab-KeyLaws}
use ap_policy.Symbols.{
  CatDatum, LevelDatum, cat_entry, sens_entry, enter, cat_read, sens_read, cat_write, sens_write,
}
use ap_policy.Symbols.Strings.{
  IsName, str_read_back, put_name_there, first_word, second_word, third_word,
}

-- a category and a sensitivity that the format can hold
pub record IsCat (d : CatDatum) : Type 0 where
  pub value_fits : d.value < 2 ^ 32
  pub alias_fits : d.isalias < 256

pub record IsSens (d : LevelDatum) : Type 0 where
  pub stored : IsStored d.level
  pub alias_fits : d.isalias < 256

abbrev cat_words : CString → CatDatum → List ℕ
cat_words key d = le_bytes 4 (length key) ++ (le_bytes 4 d.value ++ le_bytes 4 d.isalias)

abbrev sens_words : CString → LevelDatum → List ℕ
sens_words key d = le_bytes 4 (length key) ++ le_bytes 4 d.isalias

length-cat_words : (key : CString) (d : CatDatum) → length (cat_words key d) ≡ 12
length-cat_words key d = omega (
  arith,
  length-append (le_bytes 4 (length key)) (le_bytes 4 d.value ++ le_bytes 4 d.isalias),
  length-append (le_bytes 4 d.value) (le_bytes 4 d.isalias),
  length-le_bytes 4 (length key),
  length-le_bytes 4 d.value,
  length-le_bytes 4 d.isalias,
)

cat_entry_back :
    (key : CString) (d : CatDatum) (rest : List ℕ) (len : ℕ)
    → IsName key
    → IsCat d
    → cat_entry (memory (cat_words key d ++ (key ++ rest)) (12 + (length key + len)))
      ≡ ok (record { value = record { key = key; datum = d }; fp = memory rest len })
unfolding cat_entry
cat_entry_back key d rest len v c =
    let first =
      next_entry-append 12 (length key + len) (cat_words key d) (key ++ rest)
        (length-cat_words key d) in
    let alias : d.isalias < 2 ^ 32 = omega (arith, c.alias_fits) in
    let w0 =
      first_word (length key) d.value v.length_fits c.value_fits
        (le_bytes 4 d.value ++ le_bytes 4 d.isalias) in
    let w1 = second_word (length key) d.value v.length_fits c.value_fits (le_bytes 4 d.isalias) in
    let w2 = third_word (length key) d.value v.length_fits c.value_fits d.isalias alias in
    let low : d.isalias % 256 ≡ d.isalias = omega (arith, c.alias_fits) in
    rw (cat_entry, first, w0, str_read_back key rest len v, w1, w2, low) refl

-- what was read, entered in a table that has room and not the key
module _ (strcmp : CString → CString → Sign) (laws : StrcmpLaws strcmp) {D : Type 0} where
  pub record Entered (h : Hashtab CString D) (e : Entry CString D) (fp : Source)
      (made : Hashtab CString D) (result : Result Source) : Type 0 where
    pub changed : Changed (sym_ops strcmp) (symtab-KeyLaws strcmp laws) h made e.key (some e.datum)
    pub read : result ≡ ok fp

  enter-Entered :
      (h : Hashtab CString D) (e : Entry CString D) (fp : Source)
      → IsValid (sym_ops strcmp) h
      → search (sym_ops strcmp) h e.key ≡ none
      → h.nel ≢ u32_mod - 1
      → Entered h e fp
          (enter strcmp h (ok (record { value = e; fp = fp }))).0
          (enter strcmp h (ok (record { value = e; fp = fp }))).1
  unfolding enter
  enter-Entered h e fp v gone room =
      elim (insert-Insertion (sym_ops strcmp) (symtab-KeyLaws strcmp laws) h e.key e.datum v) [
        | inserted n s c count done ↦ record { changed = c; read = rw (enter, done) refl }
        | refused there held s r code ↦ absurd (none-ne-some (sym gone ∙ held))
        | full most same code ↦ absurd (room most)
      ]

sens_entry_back :
    (key : CString) (d : LevelDatum) (rest : List ℕ) (len : ℕ)
    → IsName key
    → IsSens d
    → sens_entry (
        memory
          (sens_words key d ++ (key ++ (level_bytes d.level ++ rest)))
          (8 + (length key + (4 + (bitmap_size d.level.cat + len)))))
      ≡ ok (record { value = record { key = key; datum = d }; fp = memory rest len })
unfolding sens_entry
sens_entry_back key d rest len v c =
    let left = 4 + (bitmap_size d.level.cat + len) in
    let tail = level_bytes d.level ++ rest in
    let two : length (sens_words key d) ≡ 8 = omega (
      arith,
      length-append (le_bytes 4 (length key)) (le_bytes 4 d.isalias),
      length-le_bytes 4 (length key),
      length-le_bytes 4 d.isalias,
    ) in
    let first = next_entry-append 8 (length key + left) (sens_words key d) (key ++ tail) two in
    let alias : d.isalias < 2 ^ 32 = omega (arith, c.alias_fits) in
    let w0 = first_word (length key) d.isalias v.length_fits alias (le_bytes 4 d.isalias) in
    let w1 : le_word (taken 4 (behind 4 (sens_words key d))) ≡ d.isalias =
      ap (λ x. le_word (taken 4 (behind 4 (le_bytes 4 (length key) ++ x))))
        (append_nil (le_bytes 4 d.isalias))
      ∙ second_word (length key) d.isalias v.length_fits alias [] in
    let low : d.isalias % 256 ≡ d.isalias = omega (arith, c.alias_fits) in
    rw
      (
        sens_entry,
        first,
        w0,
        str_read_back key tail left v,
        level_back d.level rest left len c.stored refl,
        w1,
        low,
      )
      refl

-- the conditions under which a name is entered
pub record HasRoom (strcmp : CString → CString → Sign) {D : Type 0} (h : Hashtab CString D)
    (key : CString) : Type 0 where
  pub valid : IsValid (sym_ops strcmp) h
  pub absent : search (sym_ops strcmp) h key ≡ none
  pub few : h.nel ≢ u32_mod - 1

module _ (strcmp : CString → CString → Sign) (laws : StrcmpLaws strcmp) where
  -- A category with a name of bytes other than NUL, a value below 2^32 and a mark of one byte is written by
  -- `cat_write` to memory with room for it. `cat_read` of those bytes, whatever stands behind them, with a
  -- table in order that has room and not the name, returns the file right behind the entry and the table
  -- with the category under that name and every other search as before.
  pub cat_read-cat_write :
      (h : Hashtab CString CatDatum) (key : CString) (d : CatDatum) (rest : List ℕ) (room len : ℕ)
      → IsName key
      → IsCat d
      → HasRoom strcmp h key
      → (fp : Target) × (cat_write key d (target [] (12 + (length key + room))) ≡ some fp)
        × (let r = cat_read strcmp h (memory (fp.out ++ rest) (length fp.out + len)) in
            Entered strcmp laws h (record { key = key; datum = d }) (memory rest len) r.0 r.1)
  unfolding cat_read cat_write
  cat_read-cat_write h key d rest room len v c t =
      let words = cat_words key d in
      let size : length (words ++ key) + len ≡ 12 + (length key + len) =
        omega (arith, length-append words key, length-cat_words key d) in
      (
        target (words ++ key) room,
        put_name_there key words [] 3 (12 + (length key + room)) room (omega arith) v.length_fits
            refl,
        rw (size, append_assoc words key rest, cat_read, cat_entry_back key d rest len v c)
            (enter-Entered strcmp laws h (record { key = key; datum = d }) (memory rest len) t.valid
              t.absent t.few),
      )

  -- A sensitivity with a name of bytes other than NUL, a level whose sensitivity is below 2^32 and whose
  -- categories are a well-formed bitmap, and a mark of one byte is written by `sens_write` to memory with
  -- room for it. `sens_read` of those bytes, whatever stands behind them, with a table in order that has room
  -- and not the name, returns the file right behind the entry and the table with the level under that name
  -- and every other search as before.
  pub sens_read-sens_write :
      (h : Hashtab CString LevelDatum) (key : CString) (d : LevelDatum) (rest : List ℕ)
      (room len : ℕ)
      → IsName key
      → IsSens d
      → HasRoom strcmp h key
      → (fp : Target) × (sens_write key d
            (target [] (8 + (length key + (4 + (bitmap_size d.level.cat + room)))))
          ≡ some fp)
        × (let r = sens_read strcmp h (memory (fp.out ++ rest) (length fp.out + len)) in
            Entered strcmp laws h (record { key = key; datum = d }) (memory rest len) r.0 r.1)
  unfolding sens_read sens_write
  sens_read-sens_write h key d rest room len v c t =
      let words = sens_words key d in
      let bytes = level_bytes d.level in
      let left = 4 + (bitmap_size d.level.cat + room) in
      let two : length words ≡ 8 = omega (
        arith,
        length-append (le_bytes 4 (length key)) (le_bytes 4 d.isalias),
        length-le_bytes 4 (length key),
        length-le_bytes 4 d.isalias,
      ) in
      let size : length ((words ++ key) ++ bytes) + len
          ≡ 8 + (length key + (4 + (bitmap_size d.level.cat + len))) =
        omega (
          arith,
          length-append (words ++ key) bytes,
          length-append words key,
          two,
          length-level_bytes d.level,
        ) in
      let order : ((words ++ key) ++ bytes) ++ rest ≡ words ++ (key ++ (bytes ++ rest)) =
        append_assoc (words ++ key) bytes rest ∙ append_assoc words key (bytes ++ rest) in
      let name =
        put_name_there key words [] 2 (8 + (length key + left)) left (omega arith) v.length_fits
          refl in
      let put = level_there d.level (words ++ key) left room c.stored refl in
      (
        target ((words ++ key) ++ bytes) room,
        rw (sens_write, name, put) refl,
        rw (size, order, sens_read, sens_entry_back key d rest len v c)
            (enter-Entered strcmp laws h (record { key = key; datum = d }) (memory rest len) t.valid
              t.absent t.few),
      )
