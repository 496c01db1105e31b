-- ===== src/Sidtab/View.antt =====
-- The SID table as a partial map from SIDs to contexts.
pub mod Scan
pub mod Assign
use ap_policy.Common.{
  ℕ, zero, suc, ◌+◌, ◌%◌, ◌≤◌, ◌<◌, ◌≡◌, ◌≢◌, refl, sym, ap, subst, ◌∙◌, Bool, true, false, Option,
  some, none, List, [], ◌∷◌, arith, ltb, leb, ◌==◌, ==_iff, if◌then◌else◌, Bool-cases, Option-cases,
  inl, inr, length,
}
use ap_policy.Common.Bits.{bit_and-le}
use ap_policy.Common.Buckets.{
  chain_at, put_chain, chain_at-put_chain, length-put_chain, not_null, empty_chains,
  length-empty_chains, chain_at-empty_chains,
}
use ap_policy.Common.Results.{Result, ok, err, eexist}
use ap_policy.Mls.{Context}
use ap_policy.Mls.Contexts.{context_cpy, context_cmp_iff, context_cpy-cmp}
use ap_policy.Sidtab.{
  SidNode, Sidtab, size, hash, u32_mod, create, new_node, insert_chain, insert_node, insert,
  search_chain, search,
}
use ap_policy.Sidtab.Chain.{Ascending, All, Inserted, insert_chain-Inserted, insert_chain_refuses}

pub false-ne-true : false ≢ true
false-ne-true h = cc

-- a SID that stands in the chain at `i`, of a table that allocates from `next` on
abbrev pub Placed : ℕ → ℕ → ℕ → Type 0
Placed i next sid = (hash sid ≡ i) × (sid < next)

pub record IsValid (s : Sidtab) : Type 0 where
  pub chains : length s.htable ≡ size
  pub ascending : (i : ℕ) → Ascending 1 (chain_at i s.htable)
  pub placed : (i : ℕ) → All (Placed i s.next_sid) (chain_at i s.htable)
  pub next_pos : 0 < s.next_sid
  pub next_fits : s.next_sid < u32_mod

-- the context of a SID in the chain of its hash value
pub view : Sidtab → ℕ → Option Context
view s sid = search_chain sid (chain_at (hash sid) s.htable)

pub hash-lt : (sid : ℕ) → hash sid < size
unfolding hash
hash-lt sid = omega (arith, bit_and-le sid 127)

pub create-IsValid : IsValid create
unfolding create
create-IsValid = record {
  chains = length-empty_chains SidNode size;
  ascending = λ i. rw (chain_at-empty_chains SidNode size i) tt;
  placed = λ i. rw (chain_at-empty_chains SidNode size i) tt;
  next_pos = omega arith;
  next_fits = omega arith;
}

pub All-next : (i n m : ℕ) (xs : List SidNode) → n ≤ m → All (Placed i n) xs → All (Placed i m) xs
All-next i n m [] h a = tt
All-next i n m (x ∷ xs) h a = ((a.0.0, omega (arith, a.0.1)), All-next i n m xs h a.1)

pub new_node-same : (sid : ℕ) (c : Context) → new_node sid c ≡ record { sid = sid; context = c }
unfolding new_node
new_node-same sid c =
    ap (λ x. record { sid = sid; context = x }) ((context_cmp_iff _ c).0 (context_cpy-cmp _ c).0)

-- the SID from which the table allocates after an insertion
abbrev pub next_after : Sidtab → ℕ → ℕ
next_after s sid = if leb s.next_sid sid then (sid + 1) % u32_mod else s.next_sid

-- a table after an insertion
pub record Grown (s : Sidtab) (sid : ℕ) (c : Context) (s' : Sidtab) : Type 0 where
  pub valid : IsValid s'
  pub added : (k : ℕ) → view s' k ≡ (if k == sid then some c else view s k)
  pub next : s'.next_sid ≡ next_after s sid
  pub others : (i : ℕ) → (i == hash sid) ≡ false → chain_at i s'.htable ≡ chain_at i s.htable
  pub own :
      Inserted
        (Placed (hash sid) (next_after s sid))
        sid
        (record { sid = sid; context = c })
        (chain_at (hash sid) s.htable)
        (chain_at (hash sid) s'.htable)

module _ (s : Sidtab) (sid : ℕ) (c : Context) (v : IsValid s) (pos : 0 < sid)
    (fits : sid + 1 < u32_mod) where
  abbrev slot : ℕ
  slot = hash sid

  slot-lt : slot < length s.htable
  slot-lt = omega (arith, hash-lt sid, v.chains)

  next_bounds :
      (s.next_sid ≤ next_after s sid) × (sid < next_after s sid) × (next_after s sid < u32_mod)
  next_bounds = (ground arith, ground (arith, v.next_fits), ground (arith, v.next_fits))

  abbrev new : SidNode
  new = record { sid = sid; context = c }

  -- the table with the changed chain
  abbrev grown : List SidNode → Sidtab
  grown made = record s {
    htable = put_chain slot made s.htable;
    nel = (s.nel + 1) % u32_mod;
    next_sid = next_after s sid;
  }

  module _ (made : List SidNode)
      (i : Inserted (Placed slot (next_after s sid)) sid new (chain_at slot s.htable) made) where
    chain_of :
        (j : ℕ) → chain_at j (grown made).htable ≡ (if j == slot then made else chain_at j s.htable)
    chain_of j = chain_at-put_chain slot j made s.htable slot-lt

    own_chain : chain_at slot (grown made).htable ≡ made
    own_chain = chain_of slot ∙ ground arith

    other_chain :
        (j : ℕ) → (j == slot) ≡ false → chain_at j (grown made).htable ≡ chain_at j s.htable
    other_chain j h = chain_of j ∙ rw h refl

    grown-IsValid : IsValid (grown made)
    grown-IsValid = record {
      chains = length-put_chain slot made s.htable ∙ v.chains;
      ascending = λ j. rw (chain_of j) (elim (Bool-cases (j == slot)) [
        | inl here ↦ rw here (i.ascending 1 pos (v.ascending slot))
        | inr there ↦ rw there (v.ascending j)
      ]);
      placed = λ j. rw (chain_of j) (elim (Bool-cases (j == slot)) [
        | inl here ↦
            let e : j ≡ slot = (==_iff j slot).0 here in
            rw (here, e)
              (i.all (refl, next_bounds.1)
                (All-next slot s.next_sid (next_after s sid) _ next_bounds.0 (v.placed slot)))
        | inr there ↦
            rw there (All-next j s.next_sid (next_after s sid) _ next_bounds.0 (v.placed j))
      ]);
      next_pos = omega (arith, next_bounds.0, v.next_pos);
      next_fits = next_bounds.2;
    }

    view-grown : (k : ℕ) → view (grown made) k ≡ (if k == sid then some c else view s k)
    unfolding view
    view-grown k = elim (Bool-cases (hash k == slot)) [
      | inl here ↦
          let e : hash k ≡ slot = (==_iff (hash k) slot).0 here in
          ap (search_chain k) (ap (λ j. chain_at j (grown made).htable) e ∙ own_chain)
          ∙ i.found k
          ∙ ap (λ j. if k == sid then some c else search_chain k (chain_at j s.htable)) (sym e)
      | inr there ↦
          let ne : (k == sid) ≡ false = elim (Bool-cases (k == sid)) [
            | inr ok_ne ↦ ok_ne
            | inl same ↦
                let e : hash k ≡ slot = ap hash ((==_iff k sid).0 same) in
                absurd (false-ne-true (sym there ∙ (==_iff (hash k) slot).1 e))
          ] in
          ap (search_chain k) (other_chain (hash k) there) ∙ rw ne refl
    ]

    grown-Grown : Grown s sid c (grown made)
    grown-Grown = record {
      valid = grown-IsValid;
      added = view-grown;
      next = refl;
      others = λ j h. other_chain j h;
      own = rw own_chain i;
    }

  pub insert-Grown : view s sid ≡ none → (s' : Sidtab) × (insert s sid c ≡ ok s') × Grown s sid c s'
  unfolding insert view
  insert-Grown missing =
      let (made, run, i) =
        insert_chain-Inserted (Placed slot (next_after s sid)) 1 new (chain_at slot s.htable)
          (omega arith) (v.ascending slot) missing in
      (
        grown made,
        ap (insert_node s sid) (new_node-same sid c) ∙ insert_node_made made run,
        grown-Grown made i,
      )
    where
      insert_node_made :
          (made : List SidNode)
          → insert_chain sid new (chain_at slot s.htable) ≡ ok made
          → insert_node s sid new ≡ ok (grown made)
      insert_node_made made run =
          unfold insert_node in rw (not_null s.htable slot slot-lt, run) refl

-- a SID that is there is refused
pub insert_refuses :
    (s : Sidtab) (sid : ℕ) (c old : Context)
    → IsValid s
    → view s sid ≡ some old
    → insert s sid c ≡ err eexist
unfolding insert view
insert_refuses s sid c old v there =
    let new : SidNode = record { sid = sid; context = c } in
    let refused = insert_chain_refuses new (chain_at (hash sid) s.htable) old there in
    ap (insert_node s sid) (new_node-same sid c)
    ∙ unfold insert_node in
      rw (not_null s.htable (hash sid) (omega (arith, hash-lt sid, v.chains)), refused) refl

-- `sepol_sidtab_search` finds the context of a SID in use
pub search-view :
    (s : Sidtab) (sid : ℕ) (c : Context) → IsValid s → view s sid ≡ some c → search s sid ≡ some c
unfolding search view
search-view s sid c v h =
    let there = not_null s.htable (hash sid) (omega (arith, v.chains, hash-lt sid)) in
    rw (search, there, h) refl
