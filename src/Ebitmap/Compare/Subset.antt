-- ===== src/Ebitmap/Compare/Subset.antt =====
-- `ebitmap_contains` decides inclusion.
use ap_policy.Common.{
  ℕ, ◌+◌, ◌-◌, ◌%◌, ◌≤◌, ◌<◌, ◌≡◌, refl, sym, ap, ◌∙◌, List, [], ◌∷◌, arith, true, ltb, inl, inr,
  ◌↔◌, comparison, same, below, above, Bool-cases, bit_and,
}
use ap_policy.Common.Bits.{bit_and-lt}
use ap_policy.Ebitmap.{Node, Ebitmap, mapsize, map_mod, get_nodes, get_bit, has_bit}
use ap_policy.Ebitmap.Compare.{contains_nodes, contains}
use ap_policy.Ebitmap.Maps.{has_bit-and}
use ap_policy.Ebitmap.Shape.{Chain, end_of, IsValid, get_nodes_below, get_nodes_past, get_bit-nodes}
use ap_policy.Ebitmap.Window.{
  get_nodes_head, get_nodes_tail, get_nodes_rest, first_bit, eq_of_has_bit,
}

-- every bit of `ys` is a bit of `xs`
abbrev Includes : List Node → List Node → Type 0
Includes xs ys = (i : ℕ) → get_nodes ys i ≡ true → get_nodes xs i ≡ true

-- the test `(n1->map & n2->map) == n2->map` is inclusion of the two maps
map_includes :
    (a b : ℕ)
    → a < map_mod
    → b < map_mod
    → ((k : ℕ) → k < mapsize → has_bit b k ≡ true → has_bit a k ≡ true)
    → bit_and a b ≡ b
map_includes a b p q sub =
    eq_of_has_bit (bit_and a b) b (bit_and-lt mapsize a b p) q
      λ k h. ground (arith, has_bit-and a b k, sub k h)

module _ {lo lo' : ℕ} (n1 n2 : Node) (r1 r2 : List Node) (c : Chain lo (n1 ∷ r1))
    (d : Chain lo' (n2 ∷ r2)) (eq : n1.startbit ≡ n2.startbit) where
  head-Includes :
      Includes (n1 ∷ r1) (n2 ∷ r2)
      → (k : ℕ) → k < mapsize
      → has_bit n2.map k ≡ true
      → has_bit n1.map k ≡ true
  head-Includes sub k h set =
      let there = get_nodes_head n2 r2 d k h ∙ set in
      sym (get_nodes_head n1 r1 c k h)
      ∙ sub (n1.startbit + k) (ap (λ s. get_nodes (n2 ∷ r2) (s + k)) eq ∙ there)

  rest-Includes : Includes (n1 ∷ r1) (n2 ∷ r2) → Includes r1 r2
  rest-Includes sub i set = elim (Bool-cases (ltb i (n2.startbit + mapsize))) [
    | inl before ↦ cc (sym set ∙ get_nodes_below (n2.startbit + mapsize) i r2 d.4 (ground arith))
    | inr from ↦
        sym (get_nodes_tail n1 r1 c i (ground arith)) ∙ sub i (get_nodes_rest n2 r2 d i set)
  ]

  nodes_include : bit_and n1.map n2.map ≡ n2.map → Includes r1 r2 → Includes (n1 ∷ r1) (n2 ∷ r2)
  unfolding get_nodes
  nodes_include maps sub i set = ground (arith, has_bit-and n1.map n2.map (i - n1.startbit), sub i)

contains_nodes_sound :
    (lo lo' : ℕ) (xs ys : List Node)
    → Chain lo xs
    → Chain lo' ys
    → contains_nodes xs ys ≡ true
    → Includes xs ys
unfolding contains_nodes
contains_nodes_sound lo lo' [] [] c d h i set = set
contains_nodes_sound lo lo' [] (n2 ∷ r2) c d h i set = cc
contains_nodes_sound lo lo' (n1 ∷ r1) [] c d h i set = unfold get_nodes in cc set
contains_nodes_sound lo lo' (n1 ∷ r1) (n2 ∷ r2) c d h i set =
    elim (comparison n1.startbit n2.startbit) [
      | same e eq ↦
          let maps : bit_and n1.map n2.map ≡ n2.map = ground arith in
          let rest : contains_nodes r1 r2 ≡ true = ground arith in
          nodes_include n1 n2 r1 r2 c d eq maps
            (contains_nodes_sound (n1.startbit + mapsize) (n2.startbit + mapsize) r1 r2 c.4 d.4
              rest)
            i set
      | below ne lt ge p ↦
          let rest : contains_nodes r1 (n2 ∷ r2) ≡ true = ground arith in
          get_nodes_rest n1 r1 c i
            (contains_nodes_sound (n1.startbit + mapsize) lo' r1 (n2 ∷ r2) c.4 d rest i set)
      | above ne ge lt p ↦ ground arith
    ]

contains_nodes_complete :
    (lo lo' : ℕ) (xs ys : List Node)
    → Chain lo xs
    → Chain lo' ys
    → Includes xs ys
    → contains_nodes xs ys ≡ true
unfolding contains_nodes
contains_nodes_complete lo lo' [] [] c d sub = refl
contains_nodes_complete lo lo' [] (n2 ∷ r2) c d sub =
    let (k, lt, set) = first_bit n2 r2 d in unfold get_nodes in cc (sub (n2.startbit + k) set)
contains_nodes_complete lo lo' (n1 ∷ r1) [] c d sub = refl
contains_nodes_complete lo lo' (n1 ∷ r1) (n2 ∷ r2) c d sub =
    elim (comparison n1.startbit n2.startbit) [
      | same e eq ↦
          let maps = map_includes n1.map n2.map c.3 d.3 (head-Includes n1 n2 r1 r2 c d eq sub) in
          let rest =
            contains_nodes_complete (n1.startbit + mapsize) (n2.startbit + mapsize) r1 r2 c.4 d.4
              (rest-Includes n1 n2 r1 r2 c d eq sub) in
          ground (arith, maps, rest)
      | below ne lt ge p ↦
          let rest = contains_nodes_complete (n1.startbit + mapsize) lo' r1 (n2 ∷ r2) c.4 d λ i set.
            elim (Bool-cases (ltb i (n1.startbit + mapsize))) [
              | inl before ↦
                  let d' : Chain n2.startbit (n2 ∷ r2) = (omega arith, d.1, d.2, d.3, d.4) in
                  cc (sym set ∙ get_nodes_below n2.startbit i (n2 ∷ r2) d' (ground arith))
              | inr from ↦ sym (get_nodes_tail n1 r1 c i (ground arith)) ∙ sub i set
            ] in
          ground (arith, rest)
      | above ne ge lt p ↦
          let (k, less, set) = first_bit n2 r2 d in
          let c' : Chain n1.startbit (n1 ∷ r1) = (omega arith, c.1, c.2, c.3, c.4) in
          cc (
            sym (sub (n2.startbit + k) set)
            ∙ get_nodes_below n1.startbit (n2.startbit + k) (n1 ∷ r1) c' (omega arith))
    ]

-- a list with a node has a bit in its last window
top_bit :
    (lo : ℕ) (n : Node) (rest : List Node)
    → Chain lo (n ∷ rest)
    → (i : ℕ) × (get_nodes (n ∷ rest) i ≡ true)
      × (end_of lo (n ∷ rest) ≤ i + mapsize)
      × (end_of lo (n ∷ rest) % mapsize ≡ 0)
top_bit lo n [] c =
    let (k, lt, set) = first_bit n [] c in (n.startbit + k, set, omega arith, omega arith)
top_bit lo n (m ∷ rest) c =
    let (i, set, last, aligned) = top_bit (n.startbit + mapsize) m rest c.4 in
    (i, get_nodes_rest n (m ∷ rest) c i set, last, aligned)

pub end_of-mod :
    (lo : ℕ) (xs : List Node) → lo % mapsize ≡ 0 → Chain lo xs → end_of lo xs % mapsize ≡ 0
end_of-mod lo [] a c = a
end_of-mod lo (n ∷ xs) a c = end_of-mod (n.startbit + mapsize) xs (omega arith) c.4

-- the early test of the high bits rejects nothing that is included
highbit-le_of_Includes :
    (xs ys : List Node) → Chain 0 xs → Chain 0 ys → Includes xs ys → end_of 0 ys ≤ end_of 0 xs
highbit-le_of_Includes xs [] c d sub = omega arith
highbit-le_of_Includes xs (n ∷ ys) c d sub =
    let (i, set, last, aligned) = top_bit 0 n ys d in
    let end = end_of-mod 0 xs (omega arith) c in
    elim (Bool-cases (ltb i (end_of 0 xs))) [
      | inl inside ↦ ground arith
      | inr past ↦ cc (sym (sub i set) ∙ get_nodes_past 0 i xs c (ground arith))
    ]

-- `ebitmap_contains` of two well-formed bitmaps is true exactly when the first has every bit of the
-- second.
pub contains_iff :
    (e1 e2 : Ebitmap)
    → IsValid e1
    → IsValid e2
    → (contains e1 e2 ≡ true) ↔ ((i : ℕ) → get_bit e2 i ≡ true → get_bit e1 i ≡ true)
unfolding contains
contains_iff e1 e2 v1 v2 = (
  λ h i set.
      let nodes : contains_nodes e1.nodes e2.nodes ≡ true = ground arith in
      get_bit-nodes v1 i
      ∙ contains_nodes_sound 0 0 e1.nodes e2.nodes v1.chain v2.chain nodes i
          (sym (get_bit-nodes v2 i) ∙ set),
  λ sub.
      let sub' : Includes e1.nodes e2.nodes =
        λ i set. sym (get_bit-nodes v1 i) ∙ sub i (get_bit-nodes v2 i ∙ set) in
      ground (
        arith,
        v1.top,
        v2.top,
        highbit-le_of_Includes e1.nodes e2.nodes v1.chain v2.chain sub',
        contains_nodes_complete 0 0 e1.nodes e2.nodes v1.chain v2.chain sub',
      ),
)
