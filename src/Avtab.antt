-- ===== src/Avtab.antt =====
-- The access vector table, libsepol/src/avtab.c and include/sepol/policydb/avtab.h: a hash table of
-- rules, whose chains are in the order of source type, target type and class.
pub mod Tests
pub mod Chain
pub mod Table
pub mod Insertion
pub mod Alloc
pub mod Walk
pub mod Found
use ap_policy.Common.Buckets.{chain_at, put_chain, is_null}
use ap_policy.Common.{
  ℕ, zero, suc, ◌+◌, ◌-◌, ◌*◌, ◌/◌, ◌%◌, ◌^◌, Bool, true, false, Option, some, none, List, [], ◌∷◌,
  ltb, leb, ◌==◌, if◌then◌else◌, ◌&&◌, ◌||◌, bit_and, bit_or, bit_xor,
}
use ap_policy.Common.Results.{Result, ok, err, enomem, eexist, ◌>>=◌}

abbrev pub u32_mod : ℕ
u32_mod = 2 ^ 32

pub record Key : Type 0 where
  pub source_type : ℕ
  pub target_type : ℕ
  pub target_class : ℕ
  pub specified : ℕ

-- AVTAB_XPERMS, AVTAB_TYPE and AVTAB_ENABLED
abbrev pub xperms_bits : ℕ
xperms_bits = 0x700

abbrev pub type_bits : ℕ
type_bits = 0x70

abbrev pub enabled_bit : ℕ
enabled_bit = 0x8000

pub record Xperms : Type 0 where
  pub specified : ℕ
  pub driver : ℕ
  pub perms : List ℕ

abbrev pub no_xperms : Xperms
no_xperms = record { specified = 0; driver = 0; perms = 0 ∷ 0 ∷ 0 ∷ 0 ∷ 0 ∷ 0 ∷ 0 ∷ 0 ∷ [] }

-- `xperms` is what the pointer leads to, `none` for NULL
pub record Datum : Type 0 where
  pub data_bits : ℕ
  pub xperms : Option Xperms

pub record AvtabNode : Type 0 where
  pub key : Key
  pub datum : Datum

-- `htable` has no chain when the pointer is NULL
pub record Avtab : Type 0 where
  pub htable : List (List AvtabNode)
  pub nel : ℕ
  pub nslot : ℕ
  pub mask : ℕ

-- the rotation `(v << r) | (v >> (32 - r))` of a uint32_t
abbrev pub rotate : ℕ → ℕ → ℕ
rotate v r = bit_or (v * 2 ^ r % u32_mod) (v / 2 ^ (32 - r))

-- the macro `mix`
pub mix : ℕ → ℕ → ℕ
mix hash input =
    let v = input * 0xcc9e2d51 % u32_mod in
    let turned = rotate v 15 * 0x1b873593 % u32_mod in
    (rotate (bit_xor hash turned) 13 * 5 + 0xe6546b64) % u32_mod

pub finish : ℕ → ℕ
finish hash =
    let h1 = bit_xor hash (hash / 2 ^ 16) * 0x85ebca6b % u32_mod in
    let h2 = bit_xor h1 (h1 / 2 ^ 13) * 0xc2b2ae35 % u32_mod in bit_xor h2 (h2 / 2 ^ 16)

pub hash : Key → ℕ → ℕ
unfolding mix finish
hash key mask =
    bit_and (finish (mix (mix (mix 0 key.target_class) key.target_type) key.source_type)) mask

-- `specified & ~(AVTAB_ENABLED | AVTAB_ENABLED_OLD)` in 16 bits
abbrev pub kinds : ℕ → ℕ
kinds specified = bit_and specified 0x7fff

-- the test of a chain's node for the key sought
unfoldable pub matches : Key → ℕ → Key → Bool
matches key specified cur =
    key.source_type == cur.source_type
    && (key.target_type == cur.target_type
        && (key.target_class == cur.target_class
            && (if bit_and specified cur.specified == 0 then false else true)))

-- the three tests that end the walk along a chain
pub before : Key → Key → Bool
before key cur =
    ltb key.source_type cur.source_type
    || ((key.source_type == cur.source_type && ltb key.target_type cur.target_type)
        || (key.source_type == cur.source_type
            && (key.target_type == cur.target_type && ltb key.target_class cur.target_class)))

-- the node that `avtab_insert_node` makes
pub new_node : Key → Datum → AvtabNode
new_node key datum =
    if bit_and key.specified xperms_bits == 0 then record { key = key; datum = datum } else record {
      key = key;
      datum = record {
        data_bits = datum.data_bits;
        xperms = elim datum.xperms [ none ↦ some no_xperms | some x ↦ some x ];
      };
    }

-- the walk of `avtab_insert`, with the node put in where it ends
pub insert_chain : Key → ℕ → AvtabNode → List AvtabNode → Result (List AvtabNode)
unfolding matches before
insert_chain key specified new [] = ok (new ∷ [])
insert_chain key specified new (cur ∷ rest) = elim (matches key specified cur.key) [
  | true ↦ if bit_and specified xperms_bits == 0 then err eexist else ok (new ∷ cur ∷ rest)
  | false ↦ elim (before key cur.key) [
    | true ↦ ok (new ∷ cur ∷ rest)
    | false ↦ elim (insert_chain key specified new rest) [
      | err e ↦ err e
      | ok made ↦ ok (cur ∷ made)
    ]
  ]
]

-- the walk of `avtab_insert_nonunique`
pub insert_chain_nonunique : Key → ℕ → AvtabNode → List AvtabNode → List AvtabNode
unfolding matches before
insert_chain_nonunique key specified new [] = new ∷ []
insert_chain_nonunique key specified new (cur ∷ rest) =
    if matches key specified cur.key || before key cur.key
    then new ∷ cur ∷ rest
    else cur ∷ insert_chain_nonunique key specified new rest

-- the walk of `avtab_search_node`: the node found, with what follows it
pub search_chain : Key → ℕ → List AvtabNode → Option (AvtabNode × List AvtabNode)
unfolding matches before
search_chain key specified [] = none
search_chain key specified (cur ∷ rest) =
    if matches key specified cur.key
    then some (cur, rest)
    else (if before key cur.key then none else search_chain key specified rest)

-- `avtab_insert` behind the computation of the hash value
pub insert_at : Avtab → ℕ → Key → Datum → Result Avtab
unfolding insert_chain new_node chain_at put_chain
insert_at h hvalue key datum = if is_null h.htable then err enomem else (do
  made ← insert_chain key (kinds key.specified) (new_node key datum) (chain_at hvalue h.htable)
  ok (record h { htable = put_chain hvalue made h.htable; nel = (h.nel + 1) % u32_mod }))

pub insert : Avtab → Key → Datum → Result Avtab
unfolding hash insert_at
insert h key datum = insert_at h (hash key h.mask) key datum

-- `avtab_insert_nonunique`: the table, or NULL
pub insert_nonunique_at : Avtab → ℕ → Key → Datum → Option Avtab
unfolding insert_chain_nonunique new_node chain_at put_chain
insert_nonunique_at h hvalue key datum =
    if is_null h.htable
    then none
    else (let made =
          insert_chain_nonunique key (kinds key.specified) (new_node key datum)
            (chain_at hvalue h.htable) in
        some (record h { htable = put_chain hvalue made h.htable; nel = (h.nel + 1) % u32_mod }))

pub insert_nonunique : Avtab → Key → Datum → Option Avtab
unfolding hash insert_nonunique_at
insert_nonunique h key datum = insert_nonunique_at h (hash key h.mask) key datum

-- `avtab_search_node` behind the computation of the hash value
pub search_at : Avtab → ℕ → Key → Option (AvtabNode × List AvtabNode)
unfolding search_chain chain_at
search_at h hvalue key =
    if is_null h.htable
    then none
    else search_chain key (kinds key.specified) (chain_at hvalue h.htable)

pub search_node : Avtab → Key → Option (AvtabNode × List AvtabNode)
unfolding hash search_at
search_node h key = search_at h (hash key h.mask) key

abbrev pub datum_of : Option (AvtabNode × List AvtabNode) → Option Datum
datum_of none = none
datum_of (some (n, rest)) = some n.datum

-- `avtab_search` has the walk of `avtab_search_node`, and returns the datum
pub search : Avtab → Key → Option Datum
unfolding search_node
search h key = datum_of (search_node h key)

-- `avtab_search_node_next`, from a node and what follows it
pub search_node_next : AvtabNode × List AvtabNode → ℕ → Option (AvtabNode × List AvtabNode)
unfolding search_chain
search_node_next (n, rest) specified = search_chain n.key (kinds specified) rest
