-- ===== src/Sidtab.antt =====
-- The SID table, libsepol/src/sidtab.c and include/sepol/policydb/sidtab.h: contexts by security
-- identifier, in a hash table whose chains are in the order of the identifiers.
pub mod Chain
pub mod View
mod Tests
use ap_policy.Common.{
  ℕ, zero, suc, ◌+◌, ◌-◌, ◌%◌, ◌^◌, Bool, true, false, Option, some, none, List, [], ◌∷◌, ltb, leb,
  ◌==◌, if◌then◌else◌, ◌||◌, bit_and,
}
use ap_policy.Common.Buckets.{chain_at, put_chain, is_null, empty_chains}
use ap_policy.Common.Results.{Result, ok, err, enomem, eexist}
use ap_policy.Ebitmap.{init}
use ap_policy.Mls.{Context, context_cmp, level, levels}
use ap_policy.Mls.Contexts.{context_cpy}

abbrev pub u32_mod : ℕ
u32_mod = 2 ^ 32

-- SIDTAB_SIZE and SIDTAB_HASH
abbrev pub size : ℕ
size = 128

pub hash : ℕ → ℕ
hash sid = bit_and sid 127

-- SECINITSID_UNLABELED
abbrev pub unlabeled : ℕ
unlabeled = 3

pub record SidNode : Type 0 where
  pub sid : ℕ
  pub context : Context

pub record Sidtab : Type 0 where
  pub htable : List (List SidNode)
  pub nel : ℕ
  pub next_sid : ℕ
  pub shutdown : Bool

unfoldable pub create : Sidtab
create = record { htable = empty_chains size; nel = 0; next_sid = 1; shutdown = false }

-- the context of the allocated node, which `context_cpy` overwrites whole
abbrev blank : Context
blank = record { user = 0; role = 0; type = 0; range = levels (level 0 init) (level 0 init) }

pub new_node : ℕ → Context → SidNode
new_node sid context = record { sid = sid; context = context_cpy blank context }

-- the walk of `sepol_sidtab_insert`, with the node put in where it ends
unfoldable pub insert_chain : ℕ → SidNode → List SidNode → Result (List SidNode)
insert_chain sid new [] = ok (new ∷ [])
insert_chain sid new (cur ∷ rest) = elim (ltb cur.sid sid) [
  | true ↦ elim (insert_chain sid new rest) [ err e ↦ err e | ok made ↦ ok (cur ∷ made) ]
  | false ↦ if sid == cur.sid then err eexist else ok (new ∷ cur ∷ rest)
]

-- `sepol_sidtab_insert` with the node made: the new table
unfoldable pub insert_node : Sidtab → ℕ → SidNode → Result Sidtab
unfolding hash insert_chain
insert_node s sid new =
    if is_null s.htable
    then err enomem
    else elim (insert_chain sid new (chain_at (hash sid) s.htable)) [
      | err e ↦ err e
      | ok made ↦ ok (record s {
        htable = put_chain (hash sid) made s.htable;
        nel = (s.nel + 1) % u32_mod;
        next_sid = if leb s.next_sid sid then (sid + 1) % u32_mod else s.next_sid;
      })
    ]

unfoldable pub insert : Sidtab → ℕ → Context → Result Sidtab
unfolding insert_node new_node
insert s sid context = insert_node s sid (new_node sid context)

-- one of the two walks of `sepol_sidtab_search`
pub search_chain : ℕ → List SidNode → Option Context
search_chain sid [] = none
search_chain sid (cur ∷ rest) = elim (ltb cur.sid sid) [
  | true ↦ search_chain sid rest
  | false ↦ if sid == cur.sid then some cur.context else none
]

-- `sepol_sidtab_search`: a SID that is not there is looked up as the unlabeled one
pub search : Sidtab → ℕ → Option Context
unfolding hash search_chain
search s sid =
    if is_null s.htable then none else elim (search_chain sid (chain_at (hash sid) s.htable)) [
      | some c ↦ some c
      | none ↦ search_chain unlabeled (chain_at (hash unlabeled) s.htable)
    ]

-- `sepol_sidtab_search_context`, along one chain and over the chains: the first node with the context
-- ends the search, and 0 is returned where there is none
pub context_chain : Context → List SidNode → Option ℕ
context_chain context [] = none
context_chain context (cur ∷ rest) =
    if context_cmp cur.context context then some cur.sid else context_chain context rest

unfoldable pub context_chains : Context → List (List SidNode) → ℕ
unfolding context_chain
context_chains context [] = 0
context_chains context (c ∷ cs) =
    let others = context_chains context cs in
    elim (context_chain context c) [ some sid ↦ sid | none ↦ others ]

unfoldable pub search_context : Sidtab → Context → ℕ
unfolding context_chains
search_context s context = context_chains context s.htable

-- `sepol_sidtab_context_to_sid`: the table and the return value with the SID. The locks are empty
-- macros, so both scans see the same table.
unfoldable pub context_to_sid : Sidtab → Context → Sidtab × Result ℕ
unfolding search_context insert
context_to_sid s context =
    let seen = search_context s context in
    if seen == 0
    then (let rescan = search_context s context in
        if rescan == 0
        then (if s.next_sid == u32_mod - 1 || s.shutdown
            then (s, err enomem)
            else (let sid = s.next_sid in
                let taken = record s { next_sid = (s.next_sid + 1) % u32_mod } in
                elim (insert taken sid context) [
                  | err e ↦ (record taken { next_sid = taken.next_sid - 1 }, err e)
                  | ok s' ↦ (s', ok sid)
                ]))
        else (s, ok rescan))
    else (s, ok seen)

-- `sepol_sidtab_destroy`, `sepol_sidtab_set` and `sepol_sidtab_shutdown`
pub destroy : Sidtab → Sidtab
destroy s = if is_null s.htable then s else record s { htable = []; nel = 0; next_sid = 1 }

pub set : Sidtab → Sidtab → Sidtab
set dst src = record {
  htable = src.htable;
  nel = src.nel;
  next_sid = src.next_sid;
  shutdown = false;
}

pub shut : Sidtab → Sidtab
shut s = record s { shutdown = true }

-- what a caller's function leaves of a SID's context and of its own state, with its return value
pub record Applied (S : Type 0) : Type 0 where
  pub state : S
  pub context : Context
  pub ret : ℕ

module _ {S : Type 0} (apply : S → ℕ → Context → Applied S) where
  -- `sepol_sidtab_map`, along one chain and over the chains, up to the first return value but 0
  pub map_chain : S → List SidNode → List SidNode × S × ℕ
  map_chain st [] = ([], st, 0)
  map_chain st (cur ∷ rest) =
      let a = apply st cur.sid cur.context in
      let changed = record cur { context = a.context } in
      let (rest', st', ret) = map_chain a.state rest in
      if a.ret == 0 then (changed ∷ rest', st', ret) else (changed ∷ rest, a.state, a.ret)

  pub map_chains : S → List (List SidNode) → List (List SidNode) × S × ℕ
  unfolding map_chain
  map_chains st [] = ([], st, 0)
  map_chains st (c ∷ cs) =
      let (c', st', ret) = map_chain st c in
      let (cs', st'', ret') = map_chains st' cs in
      if ret == 0 then (c' ∷ cs', st'', ret') else (c' ∷ cs, st', ret)

  pub map : S → Sidtab → Sidtab × S × ℕ
  unfolding map_chains
  map st s = let (cs, st', ret) = map_chains st s.htable in (record s { htable = cs }, st', ret)

  -- `sepol_sidtab_map_remove_on_error`: the chain left, and the number of nodes removed
  pub remove_chain : S → List SidNode → List SidNode × S × ℕ
  remove_chain st [] = ([], st, 0)
  remove_chain st (cur ∷ rest) =
      let a = apply st cur.sid cur.context in
      let (kept, st', removed) = remove_chain a.state rest in
      if a.ret == 0
      then (record cur { context = a.context } ∷ kept, st', removed)
      else (kept, st', removed + 1)

  pub remove_chains : S → List (List SidNode) → List (List SidNode) × S × ℕ
  unfolding remove_chain
  remove_chains st [] = ([], st, 0)
  remove_chains st (c ∷ cs) =
      let (kept, st', removed) = remove_chain st c in
      let (rest, st'', more) = remove_chains st' cs in (kept ∷ rest, st'', removed + more)

  pub map_remove_on_error : S → Sidtab → Sidtab × S
  unfolding remove_chains
  map_remove_on_error st s =
      let (kept, st', removed) = remove_chains st s.htable in
      (record s { htable = kept; nel = (s.nel + u32_mod - removed) % u32_mod }, st')
