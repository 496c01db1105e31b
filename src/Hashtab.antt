-- ===== src/Hashtab.antt =====
-- The hash table, libsepol/src/hashtab.c and include/sepol/policydb/hashtab.h: chains in the order of
-- the keys, and twice the slots when the table is full.
pub mod Chain
pub mod Place
pub mod Growth
pub mod Resize
pub mod Laws
pub mod History
pub mod Symtab
pub mod Tests
use ap_policy.Common.{
  ℕ, zero, suc, ◌+◌, ◌-◌, ◌*◌, ◌%◌, ◌^◌, ◌<◌, ◌≡◌, ◌↔◌, Bool, true, false, Option, some, none, List,
  [], ◌∷◌, leb, ◌==◌, if◌then◌else◌, ◌&&◌, not,
}
use ap_policy.Common.Buckets.{chain_at, put_chain, empty_chains}
use ap_policy.Common.Results.{Result, ok, err, enomem, eexist, enoent}

abbrev pub u32_mod : ℕ
u32_mod = 2 ^ 32

-- the sign of what a comparison returns
pub data Sign : Type 0 where
  less equal greater : Sign

-- the functions that a table is created with; the hash value depends on the number of slots
pub record KeyOps (K : Type 0) : Type 0 where
  pub hash_value : ℕ → K → ℕ
  pub keycmp : K → K → Sign

-- what the table relies on: the comparison is a total order, and a hash value is a slot
pub record KeyLaws {K : Type 0} (ops : KeyOps K) : Type 0 where
  pub hash-lt : (size : ℕ) (k : K) → 0 < size → ops.hash_value size k < size
  pub cmp_equal : (a b : K) → (ops.keycmp a b ≡ equal) ↔ (a ≡ b)
  pub cmp_less : (a b : K) → (ops.keycmp a b ≡ less) ↔ (ops.keycmp b a ≡ greater)
  pub cmp_trans :
      (a b c : K) → ops.keycmp a b ≡ less → ops.keycmp b c ≡ less → ops.keycmp a c ≡ less

pub record Entry (K D : Type 0) : Type 0 where
  pub key : K
  pub datum : D

pub record Hashtab (K D : Type 0) : Type 0 where
  pub htable : List (List (Entry K D))
  pub nel : ℕ
  pub size : ℕ

pub create : {K D : Type 0} → ℕ → Hashtab K D
create size = record { htable = empty_chains size; nel = 0; size = size }

-- `while (new_size <= h->nel && new_size * 2 != 0) new_size *= 2`, at most 32 rounds
pub grow_size : ℕ → ℕ → ℕ → ℕ
grow_size zero new_size nel = new_size
grow_size (suc rounds) new_size nel = elim (leb new_size nel && not (new_size * 2 % u32_mod == 0)) [
  | true ↦ grow_size rounds (new_size * 2 % u32_mod) nel
  | false ↦ new_size
]

module _ {K D : Type 0} (ops : KeyOps K) where
  -- the place of an entry in the chain of its slot in the new table
  pub insert_sorted : Entry K D → List (Entry K D) → List (Entry K D)
  insert_sorted e [] = e ∷ []
  insert_sorted e (cur ∷ rest) = elim (ops.keycmp e.key cur.key) [
    | greater ↦ cur ∷ insert_sorted e rest
    | equal ↦ e ∷ cur ∷ rest
    | less ↦ e ∷ cur ∷ rest
  ]

  pub place : ℕ → Entry K D → List (List (Entry K D)) → List (List (Entry K D))
  unfolding insert_sorted
  place size e cs =
      let hvalue = ops.hash_value size e.key in
      put_chain hvalue (insert_sorted e (chain_at hvalue cs)) cs

  -- the loops that move all elements
  pub move_chain : ℕ → List (Entry K D) → List (List (Entry K D)) → List (List (Entry K D))
  unfolding place
  move_chain size [] new = new
  move_chain size (cur ∷ rest) new = move_chain size rest (place size cur new)

  pub move_chains : ℕ → List (List (Entry K D)) → List (List (Entry K D)) → List (List (Entry K D))
  unfolding move_chain
  move_chains size [] new = new
  move_chains size (c ∷ cs) new = move_chains size cs (move_chain size c new)

  pub check_resize : Hashtab K D → Hashtab K D
  unfolding grow_size move_chains
  check_resize h =
      let new_size = grow_size 32 h.size h.nel in
      if h.size == new_size then h else record h {
        htable = move_chains new_size h.htable (empty_chains new_size);
        size = new_size;
      }

  -- the walk of `hashtab_insert`; `none` means that the key is there
  pub insert_chain : Entry K D → List (Entry K D) → Option (List (Entry K D))
  insert_chain e [] = some (e ∷ [])
  insert_chain e (cur ∷ rest) = elim (ops.keycmp e.key cur.key) [
    | greater ↦ elim (insert_chain e rest) [ none ↦ none | some made ↦ some (cur ∷ made) ]
    | equal ↦ none
    | less ↦ some (e ∷ cur ∷ rest)
  ]

  -- `hashtab_insert` behind the resizing
  pub insert_resized : Hashtab K D → K → D → Hashtab K D × Result (Unit {0})
  unfolding insert_chain
  insert_resized h key datum =
      let hvalue = ops.hash_value h.size key in
      elim (insert_chain (record { key = key; datum = datum }) (chain_at hvalue h.htable)) [
        | none ↦ (h, err eexist)
        | some made ↦ (record h { htable = put_chain hvalue made h.htable; nel = h.nel + 1 }, ok tt)
      ]

  pub insert : Hashtab K D → K → D → Hashtab K D × Result (Unit {0})
  unfolding check_resize insert_resized
  insert h key datum =
      if h.nel == u32_mod - 1 then (h, err enomem) else insert_resized (check_resize h) key datum

  -- the walk of `hashtab_remove`: the node of the key and the chain without it; `none` means that the
  -- key is not there
  pub remove_chain : K → List (Entry K D) → Option (Entry K D × List (Entry K D))
  remove_chain key [] = none
  remove_chain key (cur ∷ rest) = elim (ops.keycmp key cur.key) [
    | greater ↦ elim (remove_chain key rest) [
      | none ↦ none
      | some (old, left) ↦ some (old, cur ∷ left)
    ]
    | equal ↦ some (cur, rest)
    | less ↦ none
  ]

  -- the call of `destroy`, which may be null, with the caller's state
  pub destroyed : {S : Type 0} → Option (S → K → D → S) → S → K → D → S
  destroyed none args key datum = args
  destroyed (some f) args key datum = f args key datum

  -- `hashtab_remove`: the table, what `destroy` leaves of the caller's state, and the return value
  pub remove :
      {S : Type 0}
      → Hashtab K D
      → K
      → Option (S → K → D → S)
      → S
      → Hashtab K D × S × Result (Unit {0})
  unfolding remove_chain
  remove h key destroy args =
      let hvalue = ops.hash_value h.size key in
      elim (remove_chain key (chain_at hvalue h.htable)) [
        | none ↦ (h, args, err enoent)
        | some (old, left) ↦ (
          record h {
            htable = put_chain hvalue left h.htable;
            nel = (h.nel + u32_mod - 1) % u32_mod;
          },
          destroyed destroy args old.key old.datum,
          ok tt,
        )
      ]

  pub search_chain : K → List (Entry K D) → Option D
  search_chain key [] = none
  search_chain key (cur ∷ rest) = elim (ops.keycmp key cur.key) [
    | greater ↦ search_chain key rest
    | equal ↦ some cur.datum
    | less ↦ none
  ]

  pub search : Hashtab K D → K → Option D
  unfolding search_chain
  search h key = search_chain key (chain_at (ops.hash_value h.size key) h.htable)

-- `hashtab_destroy`, before the table itself is freed: no chain is left
pub destroy : {K D : Type 0} → Hashtab K D → Hashtab K D
destroy h = record h { htable = [] }

-- what a caller's function leaves of a datum and of its own state, with its return value
pub record Applied (S D : Type 0) : Type 0 where
  pub state : S
  pub datum : D
  pub ret : ℕ

module _ {S K D : Type 0} (apply : S → K → D → Applied S D) where
  -- `hashtab_map`, along one chain and over the chains, up to the first return value but 0
  pub map_chain : S → List (Entry K D) → List (Entry K D) × S × ℕ
  map_chain st [] = ([], st, 0)
  map_chain st (cur ∷ rest) =
      let a = apply st cur.key cur.datum in
      let changed = record cur { datum = a.datum } in
      let (rest', st', ret) = map_chain a.state rest in
      if a.ret == 0 then (changed ∷ rest', st', ret) else (changed ∷ rest, a.state, a.ret)

  pub map_chains : S → List (List (Entry K D)) → List (List (Entry K D)) × S × ℕ
  unfolding map_chain
  map_chains st [] = ([], st, 0)
  map_chains st (c ∷ cs) =
      let (c', st', ret) = map_chain st c in
      let (cs', st'', ret') = map_chains st' cs in
      if ret == 0 then (c' ∷ cs', st'', ret') else (c' ∷ cs, st', ret)

  pub map : S → Hashtab K D → Hashtab K D × S × ℕ
  unfolding map_chains
  map st h = let (cs, st', ret) = map_chains st h.htable in (record h { htable = cs }, st', ret)
