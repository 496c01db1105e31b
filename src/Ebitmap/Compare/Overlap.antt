-- ===== src/Ebitmap/Compare/Overlap.antt =====
-- `ebitmap_match_any` decides whether two bitmaps meet.
use ap_policy.Common.{
  ℕ, ◌+◌, ◌-◌, ◌<◌, ◌≡◌, sym, ◌∙◌, List, [], ◌∷◌, arith, true, false, ◌==◌, inl, inr, ◌↔◌,
  comparison, same, below, above, Bool-cases, bit_and,
}
use ap_policy.Common.Bits.{bit_and-lt}
use ap_policy.Common.Bits.Masks.{set_bit_of_pos}
use ap_policy.Ebitmap.{Node, Ebitmap, mapsize, map_mod, get_nodes, get_bit, has_bit}
use ap_policy.Ebitmap.Compare.{match_any_nodes, match_any}
use ap_policy.Ebitmap.Maps.{has_bit-and, has_bit-test_bit, has_bit-zero}
use ap_policy.Ebitmap.Shape.{Chain, IsValid, get_bit-nodes}
use ap_policy.Ebitmap.Window.{get_nodes_head, get_nodes_rest}

-- two maps meet when their `&` is not zero
map_meets :
    (a b : ℕ)
    → a < map_mod
    → (bit_and a b == 0) ≡ false
    → (k : ℕ) × (k < mapsize) × (has_bit a k ≡ true) × (has_bit b k ≡ true)
map_meets a b p nz =
    let (k, lt, set) =
      set_bit_of_pos mapsize (bit_and a b) (ground arith) (bit_and-lt mapsize a b p) in
    let both = has_bit-test_bit (bit_and a b) k ∙ set in
    (k, lt, ground (arith, has_bit-and a b k), ground (arith, has_bit-and a b k))

match_any_nodes_sound :
    (lo lo' : ℕ) (xs ys : List Node)
    → Chain lo xs
    → Chain lo' ys
    → match_any_nodes xs ys ≡ true
    → (i : ℕ) × (get_nodes xs i ≡ true) × (get_nodes ys i ≡ true)
unfolding match_any_nodes
match_any_nodes_sound lo lo' [] ys c d h = (0, cc, cc)
match_any_nodes_sound lo lo' (n1 ∷ r1) [] c d h = (0, cc, cc)
match_any_nodes_sound lo lo' (n1 ∷ r1) (n2 ∷ r2) c d h = elim (comparison n1.startbit n2.startbit) [
  | same e eq ↦ elim (Bool-cases (bit_and n1.map n2.map == 0)) [
    | inr nz ↦
        let (k, lt, set1, set2) = map_meets n1.map n2.map c.3 nz in
        (
          n1.startbit + k,
          get_nodes_head n1 r1 c k lt ∙ set1,
          rw eq (get_nodes_head n2 r2 d k lt ∙ set2),
        )
    | inl z ↦
        let (i, s1, s2) =
          match_any_nodes_sound (n1.startbit + mapsize) (n2.startbit + mapsize) r1 r2 c.4 d.4
            (ground arith) in
        (i, get_nodes_rest n1 r1 c i s1, get_nodes_rest n2 r2 d i s2)
  ]
  | below ne lt ge p ↦
      let (i, s1, s2) =
        match_any_nodes_sound (n1.startbit + mapsize) lo' r1 (n2 ∷ r2) c.4 d (ground arith) in
      (i, get_nodes_rest n1 r1 c i s1, s2)
  | above ne ge lt p ↦
      let (i, s1, s2) =
        match_any_nodes_sound lo (n2.startbit + mapsize) (n1 ∷ r1) r2 c d.4 (ground arith) in
      (i, s1, get_nodes_rest n2 r2 d i s2)
]

match_any_nodes_complete :
    (lo lo' i : ℕ) (xs ys : List Node)
    → Chain lo xs
    → Chain lo' ys
    → get_nodes xs i ≡ true
    → get_nodes ys i ≡ true
    → match_any_nodes xs ys ≡ true
unfolding match_any_nodes get_nodes
match_any_nodes_complete lo lo' i [] ys c d s1 s2 = cc
match_any_nodes_complete lo lo' i (n1 ∷ r1) [] c d s1 s2 = cc
match_any_nodes_complete lo lo' i (n1 ∷ r1) (n2 ∷ r2) c d s1 s2 =
    elim (comparison n1.startbit n2.startbit) [
      | same e eq ↦ ground (
        arith,
        has_bit-and n1.map n2.map (i - n1.startbit),
        has_bit-zero (i - n1.startbit),
        match_any_nodes_complete (n1.startbit + mapsize) (n2.startbit + mapsize) i r1 r2 c.4 d.4,
      )
      | below ne lt ge p ↦
          ground (arith, match_any_nodes_complete (n1.startbit + mapsize) lo' i r1 (n2 ∷ r2) c.4 d)
      | above ne ge lt p ↦
          ground (arith, match_any_nodes_complete lo (n2.startbit + mapsize) i (n1 ∷ r1) r2 c d.4)
    ]

-- `ebitmap_match_any` of two well-formed bitmaps finds a common bit when it is true, and is true
-- when there is one.
pub match_any_iff :
    (e1 e2 : Ebitmap)
    → IsValid e1
    → IsValid e2
    → (match_any e1 e2 ≡ true) ↔ ((i : ℕ) × (get_bit e1 i ≡ true) × (get_bit e2 i ≡ true))
unfolding match_any
match_any_iff e1 e2 v1 v2 = (
  λ h.
      let (i, s1, s2) = match_any_nodes_sound 0 0 e1.nodes e2.nodes v1.chain v2.chain h in
      (i, get_bit-nodes v1 i ∙ s1, get_bit-nodes v2 i ∙ s2),
  λ meet.
      match_any_nodes_complete 0 0 meet.0 e1.nodes e2.nodes v1.chain v2.chain
        (sym (get_bit-nodes v1 meet.0) ∙ meet.1) (sym (get_bit-nodes v2 meet.0) ∙ meet.2),
)
