-- ===== src/Symbols/Strings.antt =====
-- Names and the words in front of them, written and read back.
use ap_policy.Common.{
  ℕ, ◌+◌, ◌-◌, ◌*◌, ◌%◌, ◌^◌, ◌<◌, ◌≡◌, refl, sym, ap, ◌∙◌, true, false, ◌||◌, List, [], ◌∷◌, ◌++◌,
  arith, ltb, ◌==◌, length, length-append, some,
}
use ap_policy.Common.Results.{ok}
use ap_policy.PolicyFile.{le_bytes, le_word, taken, behind}
use ap_policy.PolicyFile.Words.{
  le_word-le_bytes, length-le_bytes, taken-append, behind-append, memory, next_entry-append, target,
  put_there, append_assoc, append_nil,
}
use ap_policy.Hashtab.Symtab.{CString}
use ap_policy.Symbols.{c_string, str_read, put_name}

abbrev Bytes : CString → Type 0
Bytes [] = Unit {0}
Bytes (byte ∷ rest) = (0 < byte) × (byte < 256) × Bytes rest

-- a name that the format can hold: bytes but NUL, at least one
pub record IsName (key : CString) : Type 0 where
  pub bytes : Bytes key
  pub some_byte : 0 < length key
  pub length_fits : length key < 2 ^ 32

c_string-Bytes : (key : CString) → Bytes key → c_string key ≡ key
unfolding c_string
c_string-Bytes [] b = refl
c_string-Bytes (byte ∷ rest) b =
    let low : byte % 256 ≡ byte = omega (arith, b.1) in
    let no_end : (byte == 0) ≡ false = ground (arith, b.0) in
    rw (c_string, low, no_end, c_string-Bytes rest b.2) refl

pub str_read_back :
    (key : CString) (rest : List ℕ) (len : ℕ)
    → IsName key
    → str_read (memory (key ++ rest) (length key + len)) (length key)
      ≡ ok (record { value = key; fp = memory rest len })
unfolding str_read
str_read_back key rest len v =
    let tested : ((length key == 0 || length key == 2 ^ 64 - 1)
          || ltb (length key + len) (length key))
        ≡ false =
      ground (arith, v.some_byte, v.length_fits) in
    let run = next_entry-append (length key) len key rest refl in
    rw (str_read, tested, run, c_string-Bytes key v.bytes) refl

pub put_name_there :
    (key words out : List ℕ) (items len room : ℕ)
    → 4 * items < 2 ^ 64
    → length key < 2 ^ 32
    → len ≡ 4 * items + (length key + room)
    → put_name key words items (target out len) ≡ some (target (out ++ (words ++ key)) room)
put_name_there key words out items len room few fits size =
    let head = put_there words out 4 items len (length key + room) few size in
    let one : length key + room ≡ 1 * length key + room = omega arith in
    let name =
      put_there key (out ++ words) 1 (length key) (length key + room) room (omega (arith, fits))
        one in
    let same : (items == items) ≡ true = ground arith in
    let all : (length key == length key) ≡ true = ground arith in
    rw (head, name, same, all, append_assoc out words key) refl

-- the words of an entry of two words, or three
module _ (a b : ℕ) (fits_a : a < 2 ^ 32) (fits_b : b < 2 ^ 32) where
  pub first_word : (tail : List ℕ) → le_word (taken 4 (le_bytes 4 a ++ tail)) ≡ a
  first_word tail =
      ap le_word (taken-append 4 (le_bytes 4 a) tail (length-le_bytes 4 a))
      ∙ le_word-le_bytes 4 a (omega (arith, fits_a))

  pub second_word :
      (tail : List ℕ) → le_word (taken 4 (behind 4 (le_bytes 4 a ++ (le_bytes 4 b ++ tail)))) ≡ b
  second_word tail =
      ap (λ x. le_word (taken 4 x))
        (behind-append 4 (le_bytes 4 a) (le_bytes 4 b ++ tail) (length-le_bytes 4 a))
      ∙ ap le_word (taken-append 4 (le_bytes 4 b) tail (length-le_bytes 4 b))
      ∙ le_word-le_bytes 4 b (omega (arith, fits_b))

  pub third_word :
      (c : ℕ)
      → c < 2 ^ 32
      → le_word (taken 4 (behind 8 (le_bytes 4 a ++ (le_bytes 4 b ++ le_bytes 4 c)))) ≡ c
  third_word c fits_c =
      let wa = le_bytes 4 a in
      let wb = le_bytes 4 b in
      let wc = le_bytes 4 c in
      ap (λ x. le_word (taken 4 (behind 8 x))) (sym (append_assoc wa wb wc))
      ∙ ap (λ x. le_word (taken 4 x))
          (behind-append 8 (wa ++ wb) wc
              (omega (arith, length-append wa wb, length-le_bytes 4 a, length-le_bytes 4 b))
            ∙ append_nil wc)
      ∙ ap le_word (taken-append 4 wc [] (length-le_bytes 4 c))
      ∙ le_word-le_bytes 4 c (omega (arith, fits_c))
