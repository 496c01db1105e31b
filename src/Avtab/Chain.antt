-- ===== src/Avtab/Chain.antt =====
-- The chains of the access vector table: their order, and what insertion and search do to them.
use ap_policy.Common.{
  ℕ, ◌≡◌, refl, sym, Bool, true, false, Option, some, none, List, [], ◌∷◌, arith, ◌==◌,
  if◌then◌else◌, ◌&&◌, bit_and, inl, inr, Bool-cases,
}
use ap_policy.Common.Results.{ok, err, eexist}
use ap_policy.Avtab.{
  Key, AvtabNode, matches, before, insert_chain, insert_chain_nonunique, search_chain, xperms_bits,
}

-- no node of the chain has a key in front of this one
abbrev pub Below : Key → List AvtabNode → Type 0
Below key [] = Unit {0}
Below key (cur ∷ rest) = (before cur.key key ≡ false) × Below key rest

abbrev pub IsSorted : List AvtabNode → Type 0
IsSorted [] = Unit {0}
IsSorted (cur ∷ rest) = Below cur.key rest × IsSorted rest

-- the first node that matches, with no early end
abbrev pub first_match : Key → ℕ → List AvtabNode → Option AvtabNode
first_match key specified [] = none
first_match key specified (cur ∷ rest) =
    if matches key specified cur.key then some cur else first_match key specified rest

-- the node that a search finds
abbrev pub found : Key → ℕ → List AvtabNode → Option AvtabNode
found key specified chain = elim (search_chain key specified chain) [
  | none ↦ none
  | some (n, rest) ↦ some n
]

pub before_trans : (a b c : Key) → before a b ≡ true → before c b ≡ false → before a c ≡ true
unfolding before
before_trans a b c h k = ground arith

-- keys with the same types and class have no order
pub before_same :
    (a b : Key)
    → a.source_type ≡ b.source_type
    → a.target_type ≡ b.target_type
    → a.target_class ≡ b.target_class
    → before a b ≡ false
unfolding before
before_same a b s t c = ground arith

before_asym : (a b : Key) → before a b ≡ true → before b a ≡ false
unfolding before
before_asym a b h = ground arith

not_before_trans : (a b c : Key) → before a b ≡ false → before b c ≡ false → before a c ≡ false
unfolding before
not_before_trans a b c h k = ground arith

pub matches-before :
    (key cur : Key) (specified : ℕ) → before key cur ≡ true → matches key specified cur ≡ false
unfolding before matches
matches-before key cur specified h = ground arith

matches_same :
    (key cur : Key) (specified : ℕ)
    → matches key specified cur ≡ true
    → (before cur key ≡ false) × (before key cur ≡ false)
unfolding before matches
matches_same key cur specified h = (ground arith, ground arith)

-- past a node that the key stands in front of, nothing matches
first_match_past :
    (key at : Key) (specified : ℕ) (chain : List AvtabNode)
    → before key at ≡ true
    → Below at chain
    → first_match key specified chain ≡ none
first_match_past key at specified [] h b = refl
first_match_past key at specified (cur ∷ rest) h b =
    rw (matches-before key cur.key specified (before_trans key at cur.key h b.0))
      (first_match_past key at specified rest h b.1)

-- in an ordered chain the early end of the search loses no node
pub search_chain-first_match :
    (key : Key) (specified : ℕ) (chain : List AvtabNode)
    → IsSorted chain
    → found key specified chain ≡ first_match key specified chain
unfolding search_chain
search_chain-first_match key specified [] s = refl
search_chain-first_match key specified (cur ∷ rest) s =
    elim (Bool-cases (matches key specified cur.key)) [
      | inl here ↦ rw (here, found, search_chain) refl
      | inr other ↦ elim (Bool-cases (before key cur.key)) [
        | inl past ↦
            rw (other, past, found, search_chain)
              (sym (first_match_past key cur.key specified rest past s.0))
        | inr on ↦
            rw (other, on, found, search_chain) (search_chain-first_match key specified rest s.1)
      ]
    ]

Below-trans :
    (a b : Key) (chain : List AvtabNode) → before b a ≡ false → Below b chain → Below a chain
Below-trans a b [] h below = tt
Below-trans a b (cur ∷ rest) h below =
    (not_before_trans cur.key b a below.0 h, Below-trans a b rest h below.1)

-- what an insertion that succeeds leaves
pub record Inserted (key : Key) (specified : ℕ) (new : AvtabNode) (chain made : List AvtabNode)
    : Type 0 where
  pub sorted : IsSorted made
  pub below : (k : Key) → before new.key k ≡ false → Below k chain → Below k made
  pub same :
      (k : Key) (sp : ℕ)
      → matches k sp new.key ≡ false
      → first_match k sp made ≡ first_match k sp chain
  pub head : matches key specified new.key ≡ true → first_match key specified made ≡ some new

-- the node put in front of the chain
front-Inserted :
    (key : Key) (specified : ℕ) (new : AvtabNode) (chain : List AvtabNode)
    → IsSorted chain
    → Below new.key chain
    → Inserted key specified new chain (new ∷ chain)
front-Inserted key specified new chain s b = record {
  sorted = (b, s);
  below = λ k h below. (h, below);
  same = λ k sp other. rw other refl;
  head = λ here. rw here refl;
}

-- the node put further down, behind a node that does not match
behind-Inserted :
    (key : Key) (specified : ℕ) (new cur : AvtabNode) (rest made : List AvtabNode)
    → Below cur.key rest
    → before new.key cur.key ≡ false
    → matches key specified cur.key ≡ false
    → Inserted key specified new rest made
    → Inserted key specified new (cur ∷ rest) (cur ∷ made)
behind-Inserted key specified new cur rest made b on other i = record {
  sorted = (i.below cur.key on b, i.sorted);
  below = λ k h below. (below.0, i.below k h below.1);
  same = λ k sp h. rw (i.same k sp h) refl;
  head = λ h. rw other (i.head h);
}

-- `avtab_insert_nonunique` keeps the order, and the node is found before every other that matches
pub insert_chain_nonunique-Inserted :
    (specified : ℕ) (new : AvtabNode) (chain : List AvtabNode)
    → IsSorted chain
    → Inserted new.key specified new chain (insert_chain_nonunique new.key specified new chain)
unfolding insert_chain_nonunique
insert_chain_nonunique-Inserted specified new [] s = front-Inserted new.key specified new [] s tt
insert_chain_nonunique-Inserted specified new (cur ∷ rest) s =
    elim (Bool-cases (matches new.key specified cur.key)) [
      | inl here ↦
          let low = (matches_same new.key cur.key specified here).0 in
          rw (here, insert_chain_nonunique)
            (front-Inserted new.key specified new (cur ∷ rest) s
              (low, Below-trans new.key cur.key rest low s.0))
      | inr other ↦ elim (Bool-cases (before new.key cur.key)) [
        | inl past ↦
            let low = before_asym new.key cur.key past in
            rw (other, past, insert_chain_nonunique)
              (front-Inserted new.key specified new (cur ∷ rest) s
                (low, Below-trans new.key cur.key rest low s.0))
        | inr on ↦
            rw (other, on, insert_chain_nonunique)
              (behind-Inserted new.key specified new cur rest _ s.0 on other
                (insert_chain_nonunique-Inserted specified new rest s.1))
      ]
    ]

abbrev pub is_some {ℓ} : {A : Type ℓ} → Option A → Bool
is_some none = false
is_some (some a) = true

-- `avtab_insert` refuses when a search finds a node and the kind is unique, and is otherwise
-- `avtab_insert_nonunique`
pub insert_chain-nonunique :
    (key : Key) (specified : ℕ) (new : AvtabNode) (chain : List AvtabNode)
    → insert_chain key specified new chain ≡ (
        if is_some (search_chain key specified chain) && (bit_and specified xperms_bits == 0)
        then err eexist
        else ok (insert_chain_nonunique key specified new chain))
unfolding insert_chain insert_chain_nonunique search_chain
insert_chain-nonunique key specified new [] = refl
insert_chain-nonunique key specified new (cur ∷ rest) =
    elim (Bool-cases (matches key specified cur.key)) [
      | inl here ↦ elim (Bool-cases (bit_and specified xperms_bits == 0)) [
        | inl unique ↦ rw (here, unique, insert_chain, search_chain) refl
        | inr many ↦ rw (here, many, insert_chain, search_chain, insert_chain_nonunique) refl
      ]
      | inr other ↦ elim (Bool-cases (before key cur.key)) [
        | inl past ↦ rw (other, past, insert_chain, search_chain, insert_chain_nonunique) refl
        | inr on ↦
            rw
              (
                other,
                on,
                insert_chain,
                search_chain,
                insert_chain_nonunique,
                insert_chain-nonunique key specified new rest,
              )
              (elim (Bool-cases (
                is_some (search_chain key specified rest)
                && (bit_and specified xperms_bits == 0))) [
                  | inl refused ↦ rw refused refl
                  | inr made ↦ rw made refl
                ])
      ]
    ]
