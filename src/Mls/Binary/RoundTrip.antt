-- ===== src/Mls/Binary/RoundTrip.antt =====
-- Ranges written to a binary policy and read back.
use ap_policy.Common.{
  ℕ, ◌+◌, ◌<◌, ◌≡◌, refl, sym, ap, ◌∙◌, Bool, true, false, some, List, [], ◌++◌, arith, length,
  length-append,
}
use ap_policy.Common.Results.{ok}
use ap_policy.PolicyFile.{le_bytes, le_word, taken, behind, Target}
use ap_policy.PolicyFile.Words.{
  length-le_bytes, taken-append, behind-append, memory, next_entry-append, target, append_assoc,
  append_nil,
}
use ap_policy.Ebitmap.{Ebitmap, u32_mod}
use ap_policy.Ebitmap.Shape.{IsValid, cpy_lem}
use ap_policy.Ebitmap.Binary.RoundTrip.{bitmap_bytes, bitmap_size, read_back}
use ap_policy.Mls.{level, Range, levels, level_eq}
use ap_policy.Mls.Order.{level_eq_iff}
use ap_policy.Mls.Binary.{read_range, write_range}
use ap_policy.Mls.Binary.OneLevel.{IsStored, word_back}
use ap_policy.Mls.Binary.Write.{range_size, range_bytes, length-range_bytes, write_range_there}

read_single_back :
    (sens : ℕ) (cat : Ebitmap) (rest : List ℕ) (len : ℕ)
    → sens < u32_mod
    → IsValid cat
    → read_range (
        memory
          (le_bytes 4 1 ++ (le_bytes 4 sens ++ (bitmap_bytes cat ++ rest)))
          (4 + (4 + (bitmap_size cat + len))))
      ≡ ok (record { value = levels (level sens cat) (level sens cat); fp = memory rest len })
unfolding read_range
read_single_back sens cat rest len fits v =
    let tail = bitmap_bytes cat ++ rest in
    let word = le_bytes 4 sens in
    let first =
      next_entry-append 4 (4 + (bitmap_size cat + len)) (le_bytes 4 1) (word ++ tail)
        (length-le_bytes 4 1) in
    let one : le_word (le_bytes 4 1) ≡ 1 = word_back 1 (omega arith) in
    let second = next_entry-append 4 (bitmap_size cat + len) word tail (length-le_bytes 4 sens) in
    let low : le_word (taken 4 word) ≡ sens =
      ap (λ x. le_word (taken 4 x)) (append_nil word)
      ∙ ap le_word (taken-append 4 word [] (length-le_bytes 4 sens))
      ∙ word_back sens fits in
    let back = read_back cat rest (bitmap_size cat + len) len v refl in
    rw (read_range, first, one, second, low, back, cpy_lem cat) refl

read_pair_back :
    (r : Range) (rest : List ℕ) (len : ℕ)
    → IsStored r.low
    → IsStored r.high
    → read_range (
        memory
          (le_bytes 4 2
            ++ ((le_bytes 4 r.low.sens ++ le_bytes 4 r.high.sens)
                ++ (bitmap_bytes r.low.cat ++ (bitmap_bytes r.high.cat ++ rest))))
          (4 + (8 + (bitmap_size r.low.cat + (bitmap_size r.high.cat + len)))))
      ≡ ok (record { value = r; fp = memory rest len })
unfolding read_range
read_pair_back r rest len l h =
    let a = le_bytes 4 r.low.sens in
    let b = le_bytes 4 r.high.sens in
    let high_left = bitmap_size r.high.cat + len in
    let tail = bitmap_bytes r.high.cat ++ rest in
    let low_left = bitmap_size r.low.cat + high_left in
    let la = length-le_bytes 4 r.low.sens in
    let lb = length-le_bytes 4 r.high.sens in
    let first =
      next_entry-append 4 (8 + low_left) (le_bytes 4 2)
        ((a ++ b) ++ (bitmap_bytes r.low.cat ++ tail)) (length-le_bytes 4 2) in
    let two : le_word (le_bytes 4 2) ≡ 2 = word_back 2 (omega arith) in
    let second =
      next_entry-append 8 low_left (a ++ b) (bitmap_bytes r.low.cat ++ tail)
        (omega (arith, length-append a b, la, lb)) in
    let low : le_word (taken 4 (a ++ b)) ≡ r.low.sens =
      ap le_word (taken-append 4 a b la) ∙ word_back r.low.sens l.sens_fits in
    let high : le_word (taken 4 (behind 4 (a ++ b))) ≡ r.high.sens =
      ap (λ x. le_word (taken 4 x)) (behind-append 4 a b la ∙ append_nil b)
      ∙ ap le_word (taken-append 4 b [] lb)
      ∙ word_back r.high.sens h.sens_fits in
    let low_cat = read_back r.low.cat tail low_left high_left l.cat_valid refl in
    let high_cat = read_back r.high.cat rest high_left len h.cat_valid refl in
    rw (read_range, first, two, second, low, high, low_cat, high_cat) refl

read_range_back :
    (r : Range) (eq : Bool) (rest : List ℕ) (len : ℕ)
    → IsStored r.low
    → IsStored r.high
    → level_eq r.high r.low ≡ eq
    → read_range (memory (range_bytes r eq ++ rest) (range_size r eq + len))
      ≡ ok (record { value = r; fp = memory rest len })
read_range_back r true rest len l h eq =
    let word = le_bytes 4 r.low.sens in
    let order : ((le_bytes 4 1 ++ word) ++ bitmap_bytes r.low.cat) ++ rest
        ≡ le_bytes 4 1 ++ (word ++ (bitmap_bytes r.low.cat ++ rest)) =
      append_assoc (le_bytes 4 1 ++ word) (bitmap_bytes r.low.cat) rest
      ∙ append_assoc (le_bytes 4 1) word (bitmap_bytes r.low.cat ++ rest) in
    let size : range_size r true + len ≡ 4 + (4 + (bitmap_size r.low.cat + len)) = omega arith in
    let same : r.high ≡ r.low = (level_eq_iff r.high r.low).0 eq in
    rw (order, size)
      (read_single_back r.low.sens r.low.cat rest len l.sens_fits l.cat_valid
        ∙ ap (λ x. ok (record { value = levels r.low x; fp = memory rest len })) (sym same))
read_range_back r false rest len l h eq =
    let words = le_bytes 4 r.low.sens ++ le_bytes 4 r.high.sens in
    let cats = bitmap_bytes r.low.cat ++ bitmap_bytes r.high.cat in
    let order : ((le_bytes 4 2 ++ words) ++ cats) ++ rest
        ≡ le_bytes 4 2 ++ (words ++ (bitmap_bytes r.low.cat ++ (bitmap_bytes r.high.cat ++ rest))) =
      append_assoc (le_bytes 4 2 ++ words) cats rest
      ∙ append_assoc (le_bytes 4 2) words (cats ++ rest)
      ∙ ap (λ x. le_bytes 4 2 ++ (words ++ x))
          (append_assoc (bitmap_bytes r.low.cat) (bitmap_bytes r.high.cat) rest) in
    let size : range_size r false + len
        ≡ 4 + (8 + (bitmap_size r.low.cat + (bitmap_size r.high.cat + len))) =
      omega arith in
    rw (order, size) (read_pair_back r rest len l h)

-- A range whose levels have sensitivities below 2^32 and well-formed bitmaps of categories is written
-- by `mls_write_range_helper` to memory with room for it, one level alone when the two are equal, and
-- `mls_read_range_helper` of those bytes, whatever stands behind them, returns the range and leaves the
-- file right behind it.
pub read_range-write_range :
    (r : Range) (rest : List ℕ) (room len : ℕ)
    → IsStored r.low
    → IsStored r.high
    → (fp : Target) × (write_range r (target [] (range_size r (level_eq r.high r.low) + room))
        ≡ some fp)
      × (read_range (memory (fp.out ++ rest) (length fp.out + len))
          ≡ ok (record { value = r; fp = memory rest len }))
read_range-write_range r rest room len l h =
    let eq = level_eq r.high r.low in
    let size = length-range_bytes r eq in
    (
      target (range_bytes r eq) room,
      write_range_there r eq room l h refl,
      rw size (read_range_back r eq rest len l h refl),
    )
