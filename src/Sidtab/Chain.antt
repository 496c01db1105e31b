-- ===== src/Sidtab/Chain.antt =====
-- One chain of the SID table.
use ap_policy.Common.{
  ℕ, ◌+◌, ◌≤◌, ◌<◌, ◌≡◌, ◌≢◌, refl, sym, ap, subst, ◌∙◌, true, false, some, none, List, [], ◌∷◌,
  arith, ltb, ◌==◌, ==_iff, if◌then◌else◌, Bool-cases, inl, inr,
}
use ap_policy.Common.Results.{ok, err, eexist}
use ap_policy.Mls.{Context, context_cmp}
use ap_policy.Mls.Contexts.{context_cmp_iff}
use ap_policy.Sidtab.{SidNode, insert_chain, search_chain, context_chain}

-- the SIDs of the chain increase, from `lo` on
abbrev pub Ascending : ℕ → List SidNode → Type 0
Ascending lo [] = Unit {0}
Ascending lo (cur ∷ rest) = (lo ≤ cur.sid) × Ascending (cur.sid + 1) rest

abbrev pub All : (ℕ → Type 0) → List SidNode → Type 0
All P [] = Unit {0}
All P (cur ∷ rest) = P cur.sid × All P rest

pub Ascending-le : {lo hi : ℕ} (xs : List SidNode) → lo ≤ hi → Ascending hi xs → Ascending lo xs
Ascending-le [] h a = tt
Ascending-le (x ∷ xs) h a = (omega arith, a.1)

pub search_chain_below :
    (lo sid : ℕ) (xs : List SidNode) → Ascending lo xs → sid < lo → search_chain sid xs ≡ none
unfolding search_chain
search_chain_below lo sid [] a h = refl
search_chain_below lo sid (x ∷ xs) a h = ground arith

context_cmp_self : (c : Context) → context_cmp c c ≡ true
context_cmp_self c = (context_cmp_iff c c).1 refl

-- the SID of the first node with the context, and 0 where there is none
unfoldable pub first_sid : Context → List SidNode → ℕ
first_sid context [] = 0
first_sid context (cur ∷ rest) =
    if context_cmp cur.context context then cur.sid else first_sid context rest

-- where the SIDs are positive, 0 says that the walk finds no node
pub context_chain-first_sid :
    (lo : ℕ) (context : Context) (chain : List SidNode)
    → 0 < lo
    → Ascending lo chain
    → context_chain context chain
      ≡ (if first_sid context chain == 0 then none else some (first_sid context chain))
unfolding first_sid context_chain
context_chain-first_sid lo context [] pos a = refl
context_chain-first_sid lo context (cur ∷ rest) pos a =
    elim (Bool-cases (context_cmp cur.context context)) [
      | inl here ↦
          let there : (cur.sid == 0) ≡ false = ground (arith, a.0) in
          rw (here, context_chain, first_sid, there) refl
      | inr other ↦
          rw (other, context_chain, first_sid)
            (context_chain-first_sid (cur.sid + 1) context rest (omega arith) a.1)
    ]

scan_behind :
    (new cur : SidNode) (rest made : List SidNode)
    → 0 < cur.sid
    → (first_sid new.context rest ≡ 0 → first_sid new.context made ≡ new.sid)
    → first_sid new.context (cur ∷ rest) ≡ 0
    → first_sid new.context (cur ∷ made) ≡ new.sid
unfolding first_sid
scan_behind new cur rest made pos ih h = elim (Bool-cases (context_cmp cur.context new.context)) [
  | inl here ↦ absurd (omega (arith, rw (here, first_sid) at h))
  | inr other ↦ rw (other, first_sid) (ih (rw (other, first_sid) at h))
]

module _ (P : ℕ → Type 0) where
  -- what an insertion leaves in the chain
  pub record Inserted (sid : ℕ) (new : SidNode) (chain made : List SidNode) : Type 0 where
    pub ascending : (lo : ℕ) → lo ≤ sid → Ascending lo chain → Ascending lo made
    pub all : P sid → All P chain → All P made
    pub found :
        (k : ℕ)
        → search_chain k made ≡ (if k == sid then some new.context else search_chain k chain)
    pub scan : first_sid new.context chain ≡ 0 → first_sid new.context made ≡ sid

  front-Inserted :
      (new : SidNode) (chain : List SidNode)
      → Ascending (new.sid + 1) chain
      → Inserted new.sid new chain (new ∷ chain)
  unfolding search_chain first_sid
  front-Inserted new chain a = record {
    ascending = λ lo h c. (h, a);
    all = λ p c. (p, c);
    found = λ k. ground (arith, search_chain_below (new.sid + 1) k chain a);
    scan = λ h. rw (context_cmp_self new.context) refl;
  }

  behind-Inserted :
      (new cur : SidNode) (rest made : List SidNode)
      → 0 < cur.sid
      → cur.sid < new.sid
      → Inserted new.sid new rest made
      → Inserted new.sid new (cur ∷ rest) (cur ∷ made)
  unfolding search_chain
  behind-Inserted new cur rest made pos h i = record {
    ascending = λ lo le c. (c.0, i.ascending (cur.sid + 1) (omega arith) c.1);
    all = λ p c. (c.0, i.all p c.1);
    found = λ k. ground (arith, i.found k);
    scan = λ h. scan_behind new cur rest made pos i.scan h;
  }

  -- the insertion succeeds where the search finds nothing
  pub insert_chain-Inserted :
      (lo : ℕ) (new : SidNode) (chain : List SidNode)
      → 0 < lo
      → Ascending lo chain
      → search_chain new.sid chain ≡ none
      → (made : List SidNode) × (insert_chain new.sid new chain ≡ ok made)
        × Inserted new.sid new chain made
  unfolding insert_chain search_chain
  insert_chain-Inserted lo new [] pos a h = (new ∷ [], refl, front-Inserted new [] tt)
  insert_chain-Inserted lo new (cur ∷ rest) pos a h = elim (Bool-cases (ltb cur.sid new.sid)) [
    | inl on ↦
        let (made, run, i) =
          insert_chain-Inserted (cur.sid + 1) new rest (omega arith) a.1
            (rw (on, search_chain) at h) in
        (
          cur ∷ made,
          rw (on, run, insert_chain) refl,
          behind-Inserted new cur rest made (omega (arith, a.0)) (ground arith) i,
        )
    | inr stop ↦
        let other : (new.sid == cur.sid) ≡ false = ground arith in
        (
          new ∷ cur ∷ rest,
          rw (stop, other, insert_chain) refl,
          front-Inserted new (cur ∷ rest) (ground arith, a.1),
        )
  ]

-- where the search finds a node, the insertion is refused
pub insert_chain_refuses :
    (new : SidNode) (chain : List SidNode) (c : Context)
    → search_chain new.sid chain ≡ some c
    → insert_chain new.sid new chain ≡ err eexist
unfolding insert_chain search_chain
insert_chain_refuses new [] c h = cc
insert_chain_refuses new (cur ∷ rest) c h = elim (Bool-cases (ltb cur.sid new.sid)) [
  | inl on ↦
      rw (on, insert_chain, insert_chain_refuses new rest c (rw (on, search_chain) at h)) refl
  | inr stop ↦
      let here : (new.sid == cur.sid) ≡ true = ground arith in rw (stop, here, insert_chain) refl
]

-- a node of the chain with the SID asked for is the one found
search_chain_head :
    (cur : SidNode) (rest : List SidNode) → search_chain cur.sid (cur ∷ rest) ≡ some cur.context
unfolding search_chain
search_chain_head cur rest = ground arith

search_chain_tail :
    (k : ℕ) (cur : SidNode) (rest : List SidNode)
    → cur.sid < k
    → search_chain k (cur ∷ rest) ≡ search_chain k rest
unfolding search_chain
search_chain_tail k cur rest h =
    let on : ltb cur.sid k ≡ true = ground arith in rw (on, search_chain) refl

same_context : (c context : Context) → context_cmp c context ≡ true → c ≡ context
same_context c context h = (context_cmp_iff c context).0 h

some-injective : {a b : Context} → some a ≡ some b → a ≡ b
some-injective h = cc

false-ne-true : false ≢ true
false-ne-true h = cc

-- what the scan for a context finds: nothing, which is 0, or a SID of that context
pub record Scanned (lo : ℕ) (context : Context) (chain : List SidNode) (sid : ℕ) : Type 0 where
  pub least : sid ≢ 0 → lo ≤ sid
  pub hit : sid ≢ 0 → search_chain sid chain ≡ some context
  pub miss : sid ≡ 0 → (k : ℕ) → search_chain k chain ≢ some context

search_chain_other :
    (k : ℕ) (cur : SidNode) (rest : List SidNode) (context : Context)
    → context_cmp cur.context context ≡ false
    → search_chain k (cur ∷ rest) ≡ some context
    → search_chain k rest ≡ some context
unfolding search_chain
search_chain_other k cur rest context other e = elim (Bool-cases (ltb cur.sid k)) [
  | inl on ↦ rw (on, search_chain) at e
  | inr stop ↦ elim (Bool-cases (k == cur.sid)) [
    | inl here ↦
        let same : cur.context ≡ context = some-injective (rw (stop, here, search_chain) at e) in
        absurd (false-ne-true (sym other ∙ (context_cmp_iff cur.context context).1 same))
    | inr past ↦ let bad = rw (stop, past, search_chain) at e in cc
  ]
]

pub first_sid-Scanned :
    (lo : ℕ) (context : Context) (chain : List SidNode)
    → 0 < lo
    → Ascending lo chain
    → Scanned lo context chain (first_sid context chain)
unfolding first_sid
first_sid-Scanned lo context [] pos a = record {
  least = λ h. absurd (h refl);
  hit = λ h. absurd (h refl);
  miss = λ h k e. unfold search_chain in cc e;
}
first_sid-Scanned lo context (cur ∷ rest) pos a =
    elim (Bool-cases (context_cmp cur.context context)) [
      | inl here ↦
          let same = same_context cur.context context here in
          rw (here, first_sid)
            (record {
              least = λ h. a.0;
              hit = λ h. search_chain_head cur rest ∙ ap some same;
              miss = λ h. absurd (omega (arith, a.0));
            })
      | inr other ↦
          let s = first_sid-Scanned (cur.sid + 1) context rest (omega arith) a.1 in
          rw (other, first_sid)
            (record {
              least = λ h. omega (arith, s.least h, a.0);
              hit = λ h. search_chain_tail _ cur rest (omega (arith, s.least h)) ∙ s.hit h;
              miss = λ h k e. s.miss h k (search_chain_other k cur rest context other e);
            })
    ]

-- what holds of every SID of the chain holds of one that is found
pub search_chain-All :
    (P : ℕ → Type 0) (k : ℕ) (c : Context) (chain : List SidNode)
    → All P chain
    → search_chain k chain ≡ some c
    → P k
unfolding search_chain
search_chain-All P k c [] a h = cc h
search_chain-All P k c (cur ∷ rest) a h = elim (Bool-cases (ltb cur.sid k)) [
  | inl on ↦ search_chain-All P k c rest a.1 (rw (on, search_chain) at h)
  | inr stop ↦ elim (Bool-cases (k == cur.sid)) [
    | inl here ↦ subst P (sym ((==_iff k cur.sid).0 here)) a.0
    | inr past ↦ let bad = rw (stop, past, search_chain) at h in cc
  ]
]
