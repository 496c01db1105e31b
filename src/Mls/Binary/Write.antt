-- ===== src/Mls/Binary/Write.antt =====
-- The bytes that `mls_write_range_helper` puts.
use ap_policy.Common.{
  ℕ, ◌+◌, ◌≡◌, refl, Bool, true, false, some, List, [], ◌++◌, arith, length, length-append,
}
use ap_policy.PolicyFile.{le_bytes}
use ap_policy.PolicyFile.Words.{length-le_bytes, target, put_there, append_assoc}
use ap_policy.Ebitmap.Binary.RoundTrip.{bitmap_bytes, bitmap_size, length-bitmap_bytes, write_there}
use ap_policy.Mls.{Range, level_eq}
use ap_policy.Mls.Binary.{range_words, write_range}
use ap_policy.Mls.Binary.OneLevel.{IsStored}

-- the rest of a range behind its words, in its two forms
abbrev pub range_bitmaps : Range → Bool → List ℕ
range_bitmaps r true = bitmap_bytes r.low.cat
range_bitmaps r false = bitmap_bytes r.low.cat ++ bitmap_bytes r.high.cat

abbrev pub range_size : Range → Bool → ℕ
range_size r true = 8 + bitmap_size r.low.cat
range_size r false = 12 + (bitmap_size r.low.cat + bitmap_size r.high.cat)

abbrev pub range_bytes : Range → Bool → List ℕ
range_bytes r eq = range_words r eq ++ range_bitmaps r eq

pub length-range_bytes : (r : Range) (eq : Bool) → length (range_bytes r eq) ≡ range_size r eq
length-range_bytes r true = omega (
  arith,
  length-append (le_bytes 4 1 ++ le_bytes 4 r.low.sens) (bitmap_bytes r.low.cat),
  length-append (le_bytes 4 1) (le_bytes 4 r.low.sens),
  length-le_bytes 4 1,
  length-le_bytes 4 r.low.sens,
  length-bitmap_bytes r.low.cat,
)
length-range_bytes r false = omega (
  arith,
  length-append (le_bytes 4 2 ++ (le_bytes 4 r.low.sens ++ le_bytes 4 r.high.sens))
      (bitmap_bytes r.low.cat ++ bitmap_bytes r.high.cat),
  length-append (le_bytes 4 2) (le_bytes 4 r.low.sens ++ le_bytes 4 r.high.sens),
  length-append (le_bytes 4 r.low.sens) (le_bytes 4 r.high.sens),
  length-append (bitmap_bytes r.low.cat) (bitmap_bytes r.high.cat),
  length-le_bytes 4 2,
  length-le_bytes 4 r.low.sens,
  length-le_bytes 4 r.high.sens,
  length-bitmap_bytes r.low.cat,
  length-bitmap_bytes r.high.cat,
)

pub write_range_there :
    (r : Range) (eq : Bool) (room : ℕ)
    → IsStored r.low
    → IsStored r.high
    → level_eq r.high r.low ≡ eq
    → write_range r (target [] (range_size r eq + room)) ≡ some (target (range_bytes r eq) room)
unfolding write_range
write_range_there r true room l h eq =
    let rest = bitmap_size r.low.cat + room in
    let put =
      put_there (range_words r true) [] 4 2 (range_size r true + room) rest (omega arith)
        (omega arith) in
    let low = write_there r.low.cat (range_words r true) rest room l.cat_valid refl in
    rw (write_range, eq, put, low, eq) refl
write_range_there r false room l h eq =
    let high_left = bitmap_size r.high.cat + room in
    let rest = bitmap_size r.low.cat + high_left in
    let put =
      put_there (range_words r false) [] 4 3 (range_size r false + room) rest (omega arith)
        (omega arith) in
    let low = write_there r.low.cat (range_words r false) rest high_left l.cat_valid refl in
    let high =
      write_there r.high.cat (range_words r false ++ bitmap_bytes r.low.cat) high_left room
        h.cat_valid refl in
    let order =
      append_assoc (range_words r false) (bitmap_bytes r.low.cat) (bitmap_bytes r.high.cat) in
    rw (write_range, eq, put, low, eq, high, order) refl
