-- ===== src/Ebitmap/Compare/Extensional.antt =====
-- `ebitmap_cmp` decides whether two bitmaps hold the same bits: the form of a set is unique.
use ap_policy.Common.{
  ℕ, ◌+◌, ◌≤◌, ◌≡◌, refl, sym, ap, ◌∙◌, List, [], ◌∷◌, arith, true, ltb, inl, inr, ◌↔◌, comparison,
  same, below, above, Bool-cases,
}
use ap_policy.Ebitmap.{Node, Ebitmap, node, ebitmap, mapsize, get_nodes, get_bit}
use ap_policy.Ebitmap.Compare.{cmp_nodes, cmp}
use ap_policy.Ebitmap.Shape.{Chain, end_of, IsValid, get_nodes_below, get_bit-nodes}
use ap_policy.Ebitmap.Window.{get_nodes_head, get_nodes_tail, first_bit, eq_of_has_bit}

abbrev SameBits : List Node → List Node → Type 0
SameBits xs ys = (i : ℕ) → get_nodes xs i ≡ get_nodes ys i

-- a node list whose bits all lie from `lo` on has no node below
first_bit_below :
    {lo lo' : ℕ} (n : Node) (rest ys : List Node)
    → Chain lo (n ∷ rest)
    → Chain lo' ys
    → n.startbit + mapsize ≤ lo'
    → SameBits (n ∷ rest) ys
    → ⊥
first_bit_below {lo'} n rest ys c d h agree =
    let (k, lt, set) = first_bit n rest c in
    cc (sym set ∙ agree (n.startbit + k) ∙ get_nodes_below lo' (n.startbit + k) ys d (omega arith))

module _ {lo lo' : ℕ} (n1 n2 : Node) (r1 r2 : List Node) (c : Chain lo (n1 ∷ r1))
    (d : Chain lo' (n2 ∷ r2)) (eq : n1.startbit ≡ n2.startbit)
    (agree : SameBits (n1 ∷ r1) (n2 ∷ r2)) where
  same_map : n1.map ≡ n2.map
  same_map = eq_of_has_bit n1.map n2.map c.3 d.3 λ k h.
      sym (get_nodes_head n1 r1 c k h)
      ∙ agree (n1.startbit + k)
      ∙ ap (λ s. get_nodes (n2 ∷ r2) (s + k)) eq
      ∙ get_nodes_head n2 r2 d k h

  same_rest : SameBits r1 r2
  same_rest i = elim (Bool-cases (ltb i (n1.startbit + mapsize))) [
    | inl before ↦
        get_nodes_below (n1.startbit + mapsize) i r1 c.4 (ground arith)
        ∙ sym (get_nodes_below (n2.startbit + mapsize) i r2 d.4 (ground arith))
    | inr from ↦
        sym (get_nodes_tail n1 r1 c i (ground arith))
        ∙ agree i
        ∙ get_nodes_tail n2 r2 d i (ground arith)
  ]

nodes_ext : (lo : ℕ) (xs ys : List Node) → Chain lo xs → Chain lo ys → SameBits xs ys → xs ≡ ys
nodes_ext lo [] [] c d agree = refl
nodes_ext lo [] (n2 ∷ r2) c d agree =
    absurd (
      first_bit_below {lo' = n2.startbit + mapsize} n2 r2 [] d tt (omega arith)
        (λ i. sym (agree i)))
nodes_ext lo (n1 ∷ r1) [] c d agree =
    absurd (first_bit_below {lo' = n1.startbit + mapsize} n1 r1 [] c tt (omega arith) agree)
nodes_ext lo (n1 ∷ r1) (n2 ∷ r2) c d agree = elim (comparison n1.startbit n2.startbit) [
  | same e eq ↦
      let map = same_map n1 n2 r1 r2 c d eq agree in
      let rest =
        nodes_ext (n1.startbit + mapsize) r1 r2 c.4 (rw eq d.4)
          (same_rest n1 n2 r1 r2 c d eq agree) in
      λ i. node (eq i) (map i) ∷ rest i
  | below ne lt ge p ↦
      let d' : Chain (n1.startbit + mapsize) (n2 ∷ r2) = (omega arith, d.1, d.2, d.3, d.4) in
      absurd (first_bit_below n1 r1 (n2 ∷ r2) c d' (omega arith) agree)
  | above ne ge lt p ↦
      let c' : Chain (n2.startbit + mapsize) (n1 ∷ r1) = (omega arith, c.1, c.2, c.3, c.4) in
      absurd (first_bit_below n2 r2 (n1 ∷ r1) d c' (omega arith) (λ i. sym (agree i)))
]

-- Two well-formed bitmaps with the same bits are the same bitmap.
pub ebitmap_ext :
    (e1 e2 : Ebitmap) → IsValid e1 → IsValid e2 → ((i : ℕ) → get_bit e1 i ≡ get_bit e2 i) → e1 ≡ e2
ebitmap_ext e1 e2 v1 v2 agree =
    let nodes =
      nodes_ext 0 e1.nodes e2.nodes v1.chain v2.chain
        (λ i. sym (get_bit-nodes v1 i) ∙ agree i ∙ get_bit-nodes v2 i) in
    let high : e1.highbit ≡ e2.highbit = v1.top ∙ ap (end_of 0) nodes ∙ sym v2.top in
    λ i. ebitmap (nodes i) (high i)

cmp_nodes_refl : (xs : List Node) → cmp_nodes xs xs ≡ true
unfolding cmp_nodes
cmp_nodes_refl [] = refl
cmp_nodes_refl (n ∷ xs) = ground (arith, cmp_nodes_refl xs)

eq_of_cmp_nodes : (xs ys : List Node) → cmp_nodes xs ys ≡ true → xs ≡ ys
unfolding cmp_nodes
eq_of_cmp_nodes [] [] h = refl
eq_of_cmp_nodes [] (n2 ∷ r2) h = cc
eq_of_cmp_nodes (n1 ∷ r1) [] h = cc
eq_of_cmp_nodes (n1 ∷ r1) (n2 ∷ r2) h = ground (arith, eq_of_cmp_nodes r1 r2)

pub cmp_refl : (e : Ebitmap) → cmp e e ≡ true
unfolding cmp
cmp_refl e = ground (arith, cmp_nodes_refl e.nodes)

pub eq_of_cmp : (e1 e2 : Ebitmap) → cmp e1 e2 ≡ true → e1 ≡ e2
unfolding cmp
eq_of_cmp e1 e2 h = ground (arith, eq_of_cmp_nodes e1.nodes e2.nodes)

-- `ebitmap_cmp` of two well-formed bitmaps is true exactly when they hold the same bits.
pub cmp_iff :
    (e1 e2 : Ebitmap)
    → IsValid e1
    → IsValid e2
    → (cmp e1 e2 ≡ true) ↔ ((i : ℕ) → get_bit e1 i ≡ get_bit e2 i)
cmp_iff e1 e2 v1 v2 = (
  λ h i. ap (λ e. get_bit e i) (eq_of_cmp e1 e2 h),
  λ agree. ap (cmp e1) (sym (ebitmap_ext e1 e2 v1 v2 agree)) ∙ cmp_refl e1,
)
