-- ===== src/Avtab/Found.antt =====
-- Where a search finds its node, and chains from which a node is taken or in which its datum changes.
use ap_policy.Common.Buckets.{chain_at, is_null}
use ap_policy.Common.{
  ◌∙◌, ℕ, ◌≡◌, refl, ap, true, some, List, [], ◌∷◌, ◌++◌, inl, inr, Bool-cases, Option, arith, none,
}
use ap_policy.Avtab.{
  Key, Datum, AvtabNode, Avtab, kinds, hash, matches, before, search_chain, search_at, search_node,
  search, datum_of,
}
use ap_policy.Avtab.Chain.{Below, IsSorted, first_match}
use ap_policy.Avtab.Table.{IsValid, hash-le, node_datum, search_at-first_match}
use ap_policy.Avtab.Walk.{selected, rules_of}

-- a node that the key matches, with the chain around it
pub record Split (key : Key) (specified : ℕ) (chain : List AvtabNode) (d : Datum) : Type 0 where
  pub front : List AvtabNode
  pub node : AvtabNode
  pub back : List AvtabNode
  pub whole : chain ≡ front ++ (node ∷ back)
  pub here : matches key specified node.key ≡ true
  pub datum : node.datum ≡ d

chain-Split :
    (key : Key) (specified : ℕ) (chain : List AvtabNode) (d : Datum)
    → datum_of (search_chain key specified chain) ≡ some d
    → Split key specified chain d
unfolding search_chain
chain-Split key specified [] d h = cc
chain-Split key specified (cur ∷ rest) d h = elim (Bool-cases (matches key specified cur.key)) [
  | inl here ↦ record {
    front = [];
    node = cur;
    back = rest;
    whole = refl;
    here = here;
    datum = cc (rw (here) at h);
  }
  | inr other ↦ elim (Bool-cases (before key cur.key)) [
    | inl past ↦ cc (rw (other, past) at h)
    | inr on ↦
        let s = chain-Split key specified rest d (rw (other, on) at h) in
        record {
          front = cur ∷ s.front;
          node = s.node;
          back = s.back;
          whole = ap (λ c. cur ∷ c) s.whole;
          here = s.here;
          datum = s.datum;
        }
  ]
]

-- `avtab_search` finds the datum of such a node in the chain of the key's hash value
pub search-Split :
    (h : Avtab) (key : Key) (d : Datum)
    → search h key ≡ some d
    → Split key (kinds key.specified) (chain_at (hash key h.mask) h.htable) d
unfolding search search_node search_at
search-Split h key d e = elim (Bool-cases (is_null h.htable)) [
  | inl null ↦ cc (rw (null) at e)
  | inr there ↦
      chain-Split key (kinds key.specified) (chain_at (hash key h.mask) h.htable) d
        (rw (there) at e)
]

pub hash-types :
    (a b : Key) (mask : ℕ)
    → a.source_type ≡ b.source_type
    → a.target_type ≡ b.target_type
    → a.target_class ≡ b.target_class
    → hash a mask ≡ hash b mask
unfolding hash
hash-types a b mask s t c = rw (s, t, c) refl

Below-datum :
    (k : Key) (front : List AvtabNode) (n : AvtabNode) (d : Datum) (back : List AvtabNode)
    → Below k (front ++ (n ∷ back))
    → Below k (front ++ (record n { datum = d } ∷ back))
Below-datum k [] n d back b = b
Below-datum k (x ∷ front) n d back b = (b.0, Below-datum k front n d back b.1)

Below-without :
    (k : Key) (front : List AvtabNode) (n : AvtabNode) (back : List AvtabNode)
    → Below k (front ++ (n ∷ back))
    → Below k (front ++ back)
Below-without k [] n back b = b.1
Below-without k (x ∷ front) n back b = (b.0, Below-without k front n back b.1)

-- another datum in a node keeps the order
pub IsSorted-datum :
    (front : List AvtabNode) (n : AvtabNode) (d : Datum) (back : List AvtabNode)
    → IsSorted (front ++ (n ∷ back))
    → IsSorted (front ++ (record n { datum = d } ∷ back))
IsSorted-datum [] n d back s = s
IsSorted-datum (x ∷ front) n d back s =
    (Below-datum x.key front n d back s.0, IsSorted-datum front n d back s.1)

-- and so does a node taken away
pub IsSorted-without :
    (front : List AvtabNode) (n : AvtabNode) (back : List AvtabNode)
    → IsSorted (front ++ (n ∷ back))
    → IsSorted (front ++ back)
IsSorted-without [] n back s = s.1
IsSorted-without (x ∷ front) n back s =
    (Below-without x.key front n back s.0, IsSorted-without front n back s.1)

-- the datum of the first rule
abbrev pub head_datum : List AvtabNode → Option Datum
head_datum [] = none
head_datum (n ∷ ns) = some n.datum

head_datum-selected :
    (key : Key) (specified : ℕ) (chain : List AvtabNode)
    → node_datum (first_match key specified chain) ≡ head_datum (selected key specified chain)
unfolding selected
head_datum-selected key specified [] = refl
head_datum-selected key specified (n ∷ ns) = elim (Bool-cases (matches key specified n.key)) [
  | inl here ↦ rw here refl
  | inr other ↦ rw other (head_datum-selected key specified ns)
]

-- `avtab_search` returns the datum of the first rule of the key
pub search-rules_of :
    (h : Avtab) (key : Key) → IsValid h → search h key ≡ head_datum (rules_of h key)
unfolding search search_node rules_of
search-rules_of h key v =
    search_at-first_match h (hash key h.mask) key (omega (arith, v.room, hash-le key h.mask))
      (v.sorted (hash key h.mask))
    ∙ head_datum-selected key (kinds key.specified) (chain_at (hash key h.mask) h.htable)
