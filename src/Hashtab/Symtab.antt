-- ===== src/Hashtab/Symtab.antt =====
-- The symbol tables, libsepol/src/symtab.c and include/sepol/policydb/symtab.h: a hash table whose keys are
-- strings, lists of the bytes before the NUL. `strcmp` is a parameter with what its order is known for.
use ap_policy.Common.{
  ℕ, ◌+◌, ◌-◌, ◌*◌, ◌%◌, ◌^◌, ◌<◌, ◌≡◌, ◌↔◌, List, [], ◌∷◌, bit_and, bit_xor, arith,
}
use ap_policy.Common.Bits.{bit_and-le}
use ap_policy.Hashtab.{
  u32_mod, Sign, less, equal, greater, KeyOps, KeyLaws, Hashtab, create, destroy,
}

abbrev pub CString : Type 0
CString = List ℕ

pub record Symtab (D : Type 0) : Type 0 where
  pub table : Hashtab CString D
  pub nprim : ℕ

pub symtab_destroy : {D : Type 0} → Symtab D → Symtab D
unfolding destroy
symtab_destroy s = record s { table = destroy s.table }

-- the order of `strcmp`
pub record StrcmpLaws (strcmp : CString → CString → Sign) : Type 0 where
  pub same : (a b : CString) → (strcmp a b ≡ equal) ↔ (a ≡ b)
  pub swapped : (a b : CString) → (strcmp a b ≡ less) ↔ (strcmp b a ≡ greater)
  pub trans : (a b c : CString) → strcmp a b ≡ less → strcmp b c ≡ less → strcmp a c ≡ less

-- `hash = ((hash << 5) + hash) ^ c` for each byte
pub hash_bytes : ℕ → CString → ℕ
hash_bytes hash [] = hash
hash_bytes hash (c ∷ key) = hash_bytes (bit_xor ((hash * 2 ^ 5 % u32_mod + hash) % u32_mod) c) key

pub symhash : ℕ → CString → ℕ
unfolding hash_bytes
symhash size key = bit_and (hash_bytes 5381 key) (size - 1)

module _ (strcmp : CString → CString → Sign) where
  unfoldable pub symcmp : CString → CString → Sign
  symcmp key1 key2 = strcmp key1 key2

  abbrev pub sym_ops : KeyOps CString
  sym_ops = record { hash_value = symhash; keycmp = symcmp }

  pub symtab_init : {D : Type 0} → ℕ → Symtab D
  unfolding create
  symtab_init size = record { table = create size; nprim = 0 }

  symhash-lt : (size : ℕ) (key : CString) → 0 < size → symhash size key < size
  unfolding symhash
  symhash-lt size key pos = omega (arith, bit_and-le (hash_bytes 5381 key) (size - 1))

  -- the functions of the symbol tables are what a hash table relies on
  pub symtab-KeyLaws : StrcmpLaws strcmp → KeyLaws sym_ops
  unfolding symcmp
  symtab-KeyLaws laws = record {
    hash-lt = symhash-lt;
    cmp_equal = laws.same;
    cmp_less = laws.swapped;
    cmp_trans = laws.trans;
  }
