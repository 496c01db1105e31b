-- ===== src/Avtab/Alloc.antt =====
-- `avtab_init`, `avtab_alloc`, `avtab_destroy` and `avtab_map`: a table is made, emptied, and walked.
pub mod Laws
use ap_policy.Common.Buckets.{empty_chains}
use ap_policy.Common.{
  ℕ, zero, suc, ◌+◌, ◌-◌, ◌/◌, ◌%◌, ◌^◌, Bool, true, false, List, [], ◌∷◌, ltb, ◌==◌, if◌then◌else◌,
}
use ap_policy.Avtab.{Key, Datum, AvtabNode, Avtab, u32_mod}

-- MAX_AVTAB_HASH_BUCKETS
abbrev pub max_buckets : ℕ
max_buckets = 2 ^ 20

pub init : Avtab → Avtab
init h = record h { htable = []; nel = 0 }

-- `while (work) { work = work >> 1; shift++; }`, at most 32 rounds for a uint32_t
pub count_shift : ℕ → ℕ → ℕ → ℕ
count_shift zero work shift = shift
count_shift (suc rounds) work shift = elim (work == 0) [
  | true ↦ shift
  | false ↦ count_shift rounds (work / 2) (shift + 1)
]

-- `if (shift > 2) shift = shift - 2`
pub less_two : ℕ → ℕ
less_two shift = if ltb 2 shift then shift - 2 else shift

pub at_most_max : ℕ → ℕ
at_most_max nslot = if ltb max_buckets nslot then max_buckets else nslot

-- the number of slots for `nrules` rules, which are not zero
pub slots : ℕ → ℕ
unfolding count_shift less_two at_most_max
slots nrules = at_most_max (2 ^ less_two (count_shift 32 nrules 0) % u32_mod)

pub alloc : Avtab → ℕ → Avtab
unfolding slots empty_chains
alloc h nrules = if nrules == 0 then record h { nel = 0; nslot = 0; mask = 0 } else record {
  htable = empty_chains (slots nrules);
  nel = 0;
  nslot = slots nrules;
  mask = slots nrules - 1;
}

-- `nel` stays as it is
pub destroy : Avtab → Avtab
destroy h = elim h.htable [ [] ↦ h | c ∷ cs ↦ record h { htable = []; nslot = 0; mask = 0 } ]
