-- ===== src/Mls/Binary/OneLevel.antt =====
-- Levels written to a binary policy and read back.
use ap_policy.Common.{ℕ, ◌+◌, ◌<◌, ◌≡◌, refl, some, List, [], ◌++◌, arith, length, length-append}
use ap_policy.Common.Results.{ok}
use ap_policy.PolicyFile.{le_bytes, le_word, Target}
use ap_policy.PolicyFile.Words.{
  le_word-le_bytes, length-le_bytes, memory, next_entry-append, target, put_there, append_assoc,
}
use ap_policy.Ebitmap.{u32_mod}
use ap_policy.Ebitmap.Shape.{IsValid}
use ap_policy.Ebitmap.Binary.RoundTrip.{
  bitmap_bytes, bitmap_size, length-bitmap_bytes, write_there, read_back,
}
use ap_policy.Mls.{Level}
use ap_policy.Mls.Binary.{read_level, write_level}

-- a level that the format can hold
pub record IsStored (l : Level) : Type 0 where
  pub sens_fits : l.sens < u32_mod
  pub cat_valid : IsValid l.cat

pub word_back : (n : ℕ) → n < u32_mod → le_word (le_bytes 4 n) ≡ n
word_back n h = le_word-le_bytes 4 n (omega arith)

-- the layout of a level
abbrev pub level_bytes : Level → List ℕ
level_bytes l = le_bytes 4 l.sens ++ bitmap_bytes l.cat

pub level_there :
    (l : Level) (out : List ℕ) (len room : ℕ)
    → IsStored l
    → len ≡ 4 + (bitmap_size l.cat + room)
    → write_level l (target out len) ≡ some (target (out ++ level_bytes l) room)
unfolding write_level
level_there l out len room s size =
    let word = le_bytes 4 l.sens in
    let put = put_there word out 4 1 len (bitmap_size l.cat + room) (omega arith) size in
    let cats = write_there l.cat (out ++ word) (bitmap_size l.cat + room) room s.cat_valid refl in
    rw (write_level, put, cats, append_assoc out word (bitmap_bytes l.cat)) refl

pub level_back :
    (l : Level) (rest : List ℕ) (len left : ℕ)
    → IsStored l
    → len ≡ 4 + (bitmap_size l.cat + left)
    → read_level (memory (level_bytes l ++ rest) len)
      ≡ ok (record { value = l; fp = memory rest left })
unfolding read_level
level_back l rest len left s size =
    let word = le_bytes 4 l.sens in
    let tail = bitmap_bytes l.cat ++ rest in
    let first =
      next_entry-append 4 (bitmap_size l.cat + left) word tail (length-le_bytes 4 l.sens) in
    let back = read_back l.cat rest (bitmap_size l.cat + left) left s.cat_valid refl in
    rw
      (
        size,
        append_assoc word (bitmap_bytes l.cat) rest,
        read_level,
        first,
        back,
        word_back l.sens s.sens_fits,
      )
      refl

pub length-level_bytes : (l : Level) → length (level_bytes l) ≡ 4 + bitmap_size l.cat
length-level_bytes l = omega (
  arith,
  length-append (le_bytes 4 l.sens) (bitmap_bytes l.cat),
  length-le_bytes 4 l.sens,
  length-bitmap_bytes l.cat,
)

-- A level whose sensitivity is below 2^32 and whose categories are a well-formed bitmap is written by
-- `mls_write_level` to memory with room for it, and `mls_read_level` of those bytes returns the level
-- and leaves the file right behind it.
pub read_level-write_level :
    (l : Level) (rest : List ℕ) (room len : ℕ)
    → IsStored l
    → (fp : Target) × (write_level l (target [] (4 + (bitmap_size l.cat + room))) ≡ some fp)
      × (read_level (memory (fp.out ++ rest) (length fp.out + len))
          ≡ ok (record { value = l; fp = memory rest len }))
read_level-write_level l rest room len s = (
  target (level_bytes l) room,
  level_there l [] (4 + (bitmap_size l.cat + room)) room s refl,
  level_back l rest (length (level_bytes l) + len) len s (omega (arith, length-level_bytes l)),
)
