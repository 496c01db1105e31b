-- ===== src/PolicyFile.antt =====
-- The binary policy as bytes in memory: `next_entry` and `put_entry` of libsepol/src/services.c on a
-- `struct policy_file` (include/sepol/policydb/policydb.h), and the little-endian words of
-- libsepol/src/private.h.
pub mod Words
use ap_policy.Common.{
  ℕ, zero, suc, ◌+◌, ◌-◌, ◌*◌, ◌/◌, ◌%◌, ◌^◌, Bool, true, false, List, [], ◌∷◌, ◌++◌, ltb, leb,
  ◌==◌, if◌then◌else◌, length,
}
use ap_policy.Common.Results.{Result, ok, err, failure}

-- cpu_to_le32, cpu_to_le64 and back: the bytes of a word in memory
pub le_bytes : ℕ → ℕ → List ℕ
le_bytes zero word = []
le_bytes (suc n) word = word % 256 ∷ le_bytes n (word / 256)

pub le_word : List ℕ → ℕ
le_word [] = 0
le_word (byte ∷ rest) = byte % 256 + 256 * le_word rest

-- `memcpy` of a number of bytes, and what lies behind them
pub taken : ℕ → List ℕ → List ℕ
taken zero mem = []
taken (suc n) [] = []
taken (suc n) (byte ∷ mem) = byte ∷ taken n mem

pub behind : ℕ → List ℕ → List ℕ
behind zero mem = mem
behind (suc n) [] = []
behind (suc n) (byte ∷ mem) = behind n mem

-- PF_USE_MEMORY and PF_LEN
pub data Kind : Type 0 where
  use_memory use_len : Kind

-- a file that is read: the memory from its position on, and the length that is left
pub record Source : Type 0 where
  pub kind : Kind
  pub mem : List ℕ
  pub len : ℕ

pub record Taken : Type 0 where
  pub buf : List ℕ
  pub fp : Source

pub next_entry : Source → ℕ → Result Taken
unfolding taken behind
next_entry fp bytes = elim fp.kind [
  | use_memory ↦
      if ltb fp.len bytes
      then err failure
      else ok (record {
        buf = taken bytes fp.mem;
        fp = record fp { mem = behind bytes fp.mem; len = fp.len - bytes };
      })
  | use_len ↦ err failure
]

-- a file that is written: the bytes behind its start, and the room left, or the length so far
pub record Target : Type 0 where
  pub kind : Kind
  pub out : List ℕ
  pub len : ℕ

-- the items put, of the number asked for
pub record Put : Type 0 where
  pub items : ℕ
  pub fp : Target

pub put_entry : List ℕ → ℕ → ℕ → Target → Put
put_entry ptr size n fp =
    let bytes = size * n in
    if leb (2 ^ 64) bytes then record { items = 0; fp = fp } else elim fp.kind [
      | use_memory ↦
          if ltb fp.len bytes
          then record { items = 0; fp = fp }
          else record { items = n; fp = record fp { out = fp.out ++ ptr; len = fp.len - bytes } }
      | use_len ↦ record { items = n; fp = record fp { len = (fp.len + bytes) % 2 ^ 64 } }
    ]
