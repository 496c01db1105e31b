-- ===== src/Symbols.antt =====
-- The symbols of multi-level security in a binary policy: `cat_read` and `sens_read` of
-- libsepol/src/policydb.c, `cat_write` and `sens_write` of libsepol/src/write.c, and `str_read` of
-- libsepol/src/services.c.
pub mod Strings
pub mod Entries
mod Tests
use ap_policy.Common.{
  ℕ, ◌+◌, ◌-◌, ◌%◌, ◌^◌, Bool, true, false, Option, some, none, List, [], ◌∷◌, ◌++◌, ltb, ◌==◌, not,
  ◌||◌, if◌then◌else◌, length,
}
use ap_policy.Common.Results.{Result, ok, err, failure, ◌>>=◌}
use ap_policy.PolicyFile.{
  le_bytes, le_word, taken, behind, Kind, use_memory, use_len, Source, Taken, next_entry, Target,
  Put, put_entry,
}
use ap_policy.Ebitmap.Binary.{Loaded}
use ap_policy.Mls.{Level}
use ap_policy.Mls.Binary.{read_level, write_level}
use ap_policy.Hashtab.{Sign, KeyOps, Entry, Hashtab, insert}
use ap_policy.Hashtab.Symtab.{CString, sym_ops}

-- `exceeds_available_bytes` for elements of one byte
abbrev pub exceeds_available : Kind → ℕ → ℕ → Bool
exceeds_available use_memory available x = ltb available x
exceeds_available use_len available x = false

-- a buffer that ends with a NUL, as a string
pub c_string : List ℕ → CString
c_string [] = []
c_string (byte ∷ rest) =
    let tail = c_string rest in if byte % 256 == 0 then [] else byte % 256 ∷ tail

pub str_read : Source → ℕ → Result (Loaded CString)
unfolding c_string
str_read fp len =
    if (len == 0 || len == 2 ^ 64 - 1) || exceeds_available fp.kind fp.len len
    then err failure
    else (next_entry fp len >>= λ t. ok (record { value = c_string t.buf; fp = t.fp }))

pub record CatDatum : Type 0 where
  pub value : ℕ
  pub isalias : ℕ

-- without the mark `notdefined`, which only checkpolicy sets
pub record LevelDatum : Type 0 where
  pub level : Level
  pub isalias : ℕ

-- a category read from a file, before it is put in the table
pub cat_entry : Source → Result (Loaded (Entry CString CatDatum))
unfolding str_read
cat_entry fp = next_entry fp 12 >>= λ t. str_read t.fp (le_word (taken 4 t.buf)) >>= λ s.
    ok (record {
      value = record {
        key = s.value;
        datum = record {
          value = le_word (taken 4 (behind 4 t.buf));
          isalias = le_word (taken 4 (behind 8 t.buf)) % 256;
        };
      };
      fp = s.fp;
    })

-- a sensitivity read from a file, before it is put in the table
pub sens_entry : Source → Result (Loaded (Entry CString LevelDatum))
unfolding str_read
sens_entry fp = next_entry fp 8 >>= λ t. str_read t.fp (le_word (taken 4 t.buf)) >>= λ s.
    read_level s.fp >>= λ l. ok (record {
      value = record {
        key = s.value;
        datum = record { level = l.value; isalias = le_word (taken 4 (behind 4 t.buf)) % 256 };
      };
      fp = l.fp;
    })

module _ (strcmp : CString → CString → Sign) where
  -- `hashtab_insert` of what was read; every error of the readers is -1
  pub enter :
      {D : Type 0}
      → Hashtab CString D
      → Result (Loaded (Entry CString D))
      → Hashtab CString D × Result Source
  enter h (err code) = (h, err failure)
  enter h (ok l) =
      let (made, result) = insert (sym_ops strcmp) h l.value.key l.value.datum in
      (made, elim result [ err code ↦ err failure | ok u ↦ ok l.fp ])

  pub cat_read : Hashtab CString CatDatum → Source → Hashtab CString CatDatum × Result Source
  unfolding cat_entry enter
  cat_read h fp = enter h (cat_entry fp)

  pub sens_read : Hashtab CString LevelDatum → Source → Hashtab CString LevelDatum × Result Source
  unfolding sens_entry enter
  sens_read h fp = enter h (sens_entry fp)

-- the name behind the words of an entry
abbrev pub put_name : CString → List ℕ → ℕ → Target → Option Target
put_name key words items fp =
    let head = put_entry words 4 items fp in
    let name = put_entry key 1 (length key) head.fp in
    if not (items == head.items)
    then none
    else if not (name.items == length key)
    then none
    else some name.fp

-- `none` is POLICYDB_ERROR
pub cat_write : CString → CatDatum → Target → Option Target
cat_write key datum fp =
    put_name key (le_bytes 4 (length key) ++ (le_bytes 4 datum.value ++ le_bytes 4 datum.isalias)) 3
      fp

pub sens_write : CString → LevelDatum → Target → Option Target
sens_write key datum fp =
    elim (put_name key (le_bytes 4 (length key) ++ le_bytes 4 datum.isalias) 2 fp) [
      | none ↦ none
      | some named ↦ write_level datum.level named
    ]
