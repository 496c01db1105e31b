-- ===== src/Mls/Binary.antt =====
-- Levels and ranges in a binary policy: `mls_read_level` and `mls_read_range_helper` of
-- libsepol/src/policydb.c, `mls_write_level` and `mls_write_range_helper` of libsepol/src/write.c.
pub mod OneLevel
pub mod Write
pub mod RoundTrip
mod Tests
use ap_policy.Common.{
  ℕ, ◌*◌, ◌+◌, Bool, true, false, Option, some, none, List, ◌++◌, ltb, ◌==◌, not, if◌then◌else◌,
}
use ap_policy.Common.Results.{Result, ok, err, einval, ◌>>=◌}
use ap_policy.PolicyFile.{
  le_bytes, le_word, taken, behind, Source, Taken, next_entry, Target, Put, put_entry,
}
use ap_policy.Ebitmap.{cpy}
use ap_policy.Ebitmap.Binary.{Loaded, refuse_if, read, write}
use ap_policy.Mls.{Level, level, Range, levels, level_eq}

-- every error of `mls_read_level` is -EINVAL
abbrev pub invalid : {A : Type 0} → Result A → Result A
invalid (err code) = err einval
invalid (ok a) = ok a

pub read_level : Source → Result (Loaded Level)
read_level fp = invalid (
    next_entry fp 4 >>= λ t.
    read t.fp >>= λ c. ok (record { value = level (le_word t.buf) c.value; fp = c.fp }))

-- `none` is POLICYDB_ERROR
pub write_level : Level → Target → Option Target
write_level l fp =
    let head = put_entry (le_bytes 4 l.sens) 4 1 fp in
    if not (head.items == 1) then none else write l.cat head.fp

-- without a word the buffer still holds the number of words, 0
pub read_range : Source → Result (Loaded Range)
read_range fp = next_entry fp 4 >>= λ t.
    let items = le_word t.buf in
    refuse_if (ltb 2 items) (
      next_entry t.fp (4 * items) >>= λ u.
      let low = if items == 0 then items else le_word (taken 4 u.buf) in
      let high = if ltb 1 items then le_word (taken 4 (behind 4 u.buf)) else low in
      read u.fp >>= λ c.
      if ltb 1 items
      then (read c.fp >>= λ e.
          ok (record { value = levels (level low c.value) (level high e.value); fp = e.fp }))
      else ok (record { value = levels (level low c.value) (level high (cpy c.value)); fp = c.fp }))

-- the words in front of the bitmaps: their number, and the sensitivities
abbrev pub range_words : Range → Bool → List ℕ
range_words r true = le_bytes 4 1 ++ le_bytes 4 r.low.sens
range_words r false = le_bytes 4 2 ++ (le_bytes 4 r.low.sens ++ le_bytes 4 r.high.sens)

pub write_range : Range → Target → Option Target
write_range r fp =
    let eq = level_eq r.high r.low in
    let items = if eq then 2 else 3 in
    let head = put_entry (range_words r eq) 4 items fp in
    if not (head.items == items) then none else elim (write r.low.cat head.fp) [
      | none ↦ none
      | some low_put ↦ if eq then some low_put else write r.high.cat low_put
    ]
