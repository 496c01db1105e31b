-- ===== src/Optimize.antt =====
-- The removal of redundant rules from a policy, libsepol/src/optimize.c: the map from types to the
-- attributes that include them, and the rules of the unconditional table.
pub mod Masks
pub mod Rules
pub mod Table
pub mod Covering
pub mod Walks
pub mod Slots
pub mod TypeMap
pub mod Laws
pub mod Decisions
mod Tests
use ap_policy.Common.Buckets.{chain_at, put_chain}
use ap_policy.Common.{
  ℕ, zero, suc, ◌+◌, ◌-◌, ◌/◌, ◌%◌, ◌^◌, Bool, true, false, Option, some, none, List, [], ◌∷◌, ◌++◌,
  length, get_elem?, ltb, ◌==◌, if◌then◌else◌, ◌&&◌, ◌||◌, not, bit_and, bit_or, bit_xor,
}
use ap_policy.Common.Bits.{test_bit}
use ap_policy.Avtab.{Key, Xperms, Datum, AvtabNode, Avtab, u32_mod, xperms_bits, search}
use ap_policy.Ebitmap.{Ebitmap}
use ap_policy.Ebitmap.Compare.{contains}
use ap_policy.Security.TypeRules.{and_not, av_auditdeny, av_rules, attribute_bits}

-- what of the policy's types is read; an array is a function of the index, `present` is false for NULL
pub record Types : Type 0 where
  pub nprim : ℕ
  pub present : ℕ → Bool
  pub is_attrib : ℕ → Bool
  pub type_attr_map : ℕ → Ebitmap
  pub attr_type_map : ℕ → Ebitmap

-- the inner loop of `build_type_map` for an attribute, with `rounds` left
pub supersets : Types → ℕ → ℕ → ℕ → List ℕ
supersets ts i zero k = []
supersets ts i (suc rounds) k =
    let rest = supersets ts i rounds (k + 1) in
    if ts.present k && (ts.is_attrib k && contains (ts.attr_type_map k) (ts.attr_type_map i))
    then k ∷ rest
    else rest

pub type_vec_of : Types → ℕ → Option (List ℕ)
unfolding supersets
type_vec_of ts i =
    if not (ts.present i)
    then some []
    else if ts.is_attrib i
    then some (supersets ts i ts.nprim 0)
    else attribute_bits (ts.type_attr_map i)

pub build_rounds : Types → ℕ → ℕ → Option (List (List ℕ))
unfolding type_vec_of
build_rounds ts zero i = some []
build_rounds ts (suc rounds) i = elim (type_vec_of ts i) [
  | none ↦ none
  | some v ↦ elim (build_rounds ts rounds (i + 1)) [ none ↦ none | some vs ↦ some (v ∷ vs) ]
]

-- `build_type_map`; calloc and the growth of the vectors are taken to succeed
pub build_type_map : Types → Option (List (List ℕ))
unfolding build_rounds
build_type_map ts = build_rounds ts ts.nprim 0

-- `map[i].types`
pub types_at : List (List ℕ) → ℕ → List ℕ
types_at type_map i = elim (get_elem? type_map i) [ none ↦ [] | some v ↦ v ]

-- `type - 1` of a number that counts from 1
abbrev pub index : ℕ → ℕ
index zero = 2 ^ 32 - 1
index (suc i) = i

-- whether `p1` has lost all bits, and what is left of it
pub process_xperms : List ℕ → List ℕ → Bool × List ℕ
process_xperms [] p2 = (true, [])
process_xperms (a ∷ p1) [] = (false, a ∷ p1)
process_xperms (a ∷ p1) (b ∷ p2) =
    let rest = process_xperms p1 p2 in (and_not a b == 0 && rest.0, and_not a b ∷ rest.1)

-- `xperm_test`
pub xperm_test : ℕ → List ℕ → Bool
xperm_test x p = elim (get_elem? p (x / 32)) [ none ↦ false | some word ↦ test_bit word (x % 32) ]

-- AVTAB_XPERMS_IOCTLFUNCTION, AVTAB_XPERMS_IOCTLDRIVER and AVTAB_XPERMS_NLMSG
abbrev pub ioctl_function : ℕ
ioctl_function = 1

abbrev pub ioctl_driver : ℕ
ioctl_driver = 2

abbrev pub nlmsg : ℕ
nlmsg = 3

-- the case AVTAB_XPERMS of `process_avtab_datum`, with what it leaves of `x1->perms`
pub process_extended : Xperms → Xperms → Bool × List ℕ
unfolding process_xperms xperm_test
process_extended x1 x2 =
    if x1.specified == ioctl_function
    then (if x2.specified == ioctl_function
        then (if not (x1.driver == x2.driver)
            then (false, x1.perms)
            else process_xperms x1.perms x2.perms)
        else if x2.specified == ioctl_driver
        then (xperm_test x1.driver x2.perms, x1.perms)
        else (false, x1.perms))
    else if x1.specified == ioctl_driver
    then (if x2.specified == ioctl_function
        then (false, x1.perms)
        else if x2.specified == ioctl_driver
        then process_xperms x1.perms x2.perms
        else (false, x1.perms))
    else if x1.specified == nlmsg && x2.specified == nlmsg
    then (if not (x1.driver == x2.driver)
        then (false, x1.perms)
        else process_xperms x1.perms x2.perms)
    else (false, x1.perms)

pub process_pointers : Datum → Option Xperms → Option Xperms → Bool × Datum
unfolding process_extended
process_pointers d1 none x2 = (false, d1)
process_pointers d1 (some x1) none = (false, d1)
process_pointers d1 (some x1) (some x2) =
    let r = process_extended x1 x2 in (r.0, record d1 { xperms = some (record x1 { perms = r.1 }) })

-- `process_avtab_datum`: its result, and `*d1`; `a | ~b` is written with the complement in 32 bits
pub process_avtab_datum : ℕ → Datum → Datum → Bool × Datum
unfolding process_pointers
process_avtab_datum specified d1 d2 =
    if not (bit_and specified av_auditdeny == 0)
    then (let bits = bit_or d1.data_bits (u32_mod - 1 - d2.data_bits) in
        (bits == 0xffffffff, record d1 { data_bits = bits }))
    else if not (bit_and specified av_rules == 0)
    then (let bits = and_not d1.data_bits d2.data_bits in
        (bits == 0, record d1 { data_bits = bits }))
    else if not (bit_and specified xperms_bits == 0)
    then process_pointers d1 d1.xperms d2.xperms
    else (false, d1)

-- the key that is searched for a rule
pub covering_key : Key → ℕ → ℕ → Key
covering_key key st tt = record key {
  source_type = (st + 1) % 2 ^ 16;
  target_type = (tt + 1) % 2 ^ 16;
}

-- a rule that is covered ends the walks, or they go on with what is left of its datum
abbrev pub unless_covered : Bool × Datum → (Datum → Bool × Datum) → Bool × Datum
unless_covered (true, d) rest = (true, d)
unless_covered (false, d) rest = rest d

-- the walks of `is_avrule_redundant`, with the datum of the entry; `tab` is the table for each datum of the entry
module _ (tab : Datum → Avtab) (key : Key) (not_cond : Bool) where
  pub inner_targets : ℕ → List ℕ → Datum → Bool × Datum
  unfolding process_avtab_datum covering_key
  inner_targets st [] d = (false, d)
  inner_targets st (t ∷ ts) d =
      elim (not_cond && (index key.source_type == st && index key.target_type == t)) [
        | true ↦ inner_targets st ts d
        | false ↦ elim (search (tab d) (covering_key key st t)) [
          | none ↦ inner_targets st ts d
          | some d2 ↦
              unless_covered (process_avtab_datum key.specified d d2) (λ d'. inner_targets st ts d')
        ]
      ]

  pub outer_sources : List ℕ → List ℕ → Datum → Bool × Datum
  unfolding inner_targets
  outer_sources [] ts d = (false, d)
  outer_sources (s ∷ ss) ts d = unless_covered (inner_targets s ts d) (λ d'. outer_sources ss ts d')

-- `is_avrule_redundant`: its result, and the datum of the entry behind it
pub is_avrule_redundant : (Datum → Avtab) → List (List ℕ) → AvtabNode → Bool → Bool × Datum
unfolding outer_sources types_at
is_avrule_redundant tab type_map entry not_cond =
    if bit_and entry.key.specified (bit_or av_rules xperms_bits) == 0
    then (false, entry.datum)
    else outer_sources tab entry.key not_cond (types_at type_map (index entry.key.source_type))
        (types_at type_map (index entry.key.target_type)) entry.datum

-- the table with another chain in a slot
pub with_chain : Avtab → ℕ → List AvtabNode → Avtab
with_chain h slot chain = record h { htable = put_chain slot chain h.htable }

-- the walk of `optimize_avtab` along one chain: `kept` is in front of `*cur`, in its order
pub optimize_chain : List (List ℕ) → ℕ → Avtab → List AvtabNode → List AvtabNode → Avtab
unfolding is_avrule_redundant with_chain
optimize_chain type_map slot h kept [] = with_chain h slot kept
optimize_chain type_map slot h kept (cur ∷ rest) =
    let (redundant, d) =
      is_avrule_redundant (λ d. with_chain h slot (kept ++ (record cur { datum = d } ∷ rest)))
        type_map cur true in
    elim redundant [
      | true ↦
          optimize_chain type_map slot (record h { nel = (h.nel + u32_mod - 1) % u32_mod }) kept
            rest
      | false ↦ optimize_chain type_map slot h (kept ++ (record cur { datum = d } ∷ [])) rest
    ]

pub optimize_slots : List (List ℕ) → ℕ → ℕ → Avtab → Avtab
unfolding optimize_chain
optimize_slots type_map zero i h = h
optimize_slots type_map (suc rounds) i h =
    optimize_slots type_map rounds (i + 1) (optimize_chain type_map i h [] (chain_at i h.htable))

pub optimize_avtab : List (List ℕ) → Avtab → Avtab
unfolding optimize_slots
optimize_avtab type_map tab = optimize_slots type_map tab.nslot 0 tab
