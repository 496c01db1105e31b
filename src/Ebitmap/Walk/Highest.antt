-- ===== src/Ebitmap/Walk/Highest.antt =====
-- `ebitmap_highest_set_bit` is the largest set bit.
use ap_policy.Common.{
  ℕ, zero, suc, ◌+◌, ◌-◌, ◌/◌, ◌%◌, ◌^◌, ◌≤◌, ◌<◌, ◌≡◌, ◌≢◌, refl, ◌∙◌, true, false, List, [], ◌∷◌,
  ◌==◌, arith, inl, inr, Bool-cases,
}
use native.Mathlib.Nat.{pow-suc}
use ap_policy.Common.Bits.{test_bit, test_bit-zero}
use ap_policy.Ebitmap.{Node, Ebitmap, ebitmap, mapsize, get_nodes, get_bit}
use ap_policy.Ebitmap.Maps.{has_bit-test_bit}
use ap_policy.Ebitmap.Shape.{Chain, IsValid, get_bit-nodes}
use ap_policy.Ebitmap.Window.{get_nodes_head, get_nodes_tail, get_nodes_rest}
use ap_policy.Ebitmap.Walk.{top_pos, highest_nodes, highest_set_bit}

-- bit `k` of the map is its last
record IsTop (map k : ℕ) : Type 0 where
  set : test_bit map k ≡ true
  last : (j : ℕ) → k < j → test_bit map j ≡ false

-- the loop adds to `pos` the place of the last bit
top_pos-IsTop :
    (rounds map pos : ℕ)
    → 0 < map
    → map < 2 ^ rounds
    → (k : ℕ) × (top_pos rounds map pos ≡ pos + k) × (k < rounds) × IsTop map k
unfolding top_pos test_bit
top_pos-IsTop zero map pos h small = absurd (omega arith)
top_pos-IsTop (suc rounds) map pos h small = elim (Bool-cases (map / 2 == 0)) [
  | inl one ↦
      let none : map / 2 ≡ 0 = ground arith in
      let low : map % 2 ≡ 1 = omega arith in
      (
        0,
        rw (one, top_pos) (omega arith),
        omega arith,
        record { set = ground arith; last = above none },
      )
  | inr more ↦
      let (k, run, lt, top) =
        top_pos-IsTop rounds (map / 2) (pos + 1) (ground arith) (omega (arith, pow-suc 2 rounds)) in
      (
        suc k,
        rw (more, top_pos) (run ∙ omega arith),
        omega arith,
        record { set = top.set; last = behind k top },
      )
]
  where
    above : map / 2 ≡ 0 → (j : ℕ) → 0 < j → test_bit map j ≡ false
    above none zero p = absurd (omega arith)
    above none (suc j) p = rw none (test_bit-zero j)

    behind : (k : ℕ) → IsTop (map / 2) k → (j : ℕ) → suc k < j → test_bit map j ≡ false
    behind k top zero p = absurd (omega arith)
    behind k top (suc j) p = top.last j (omega arith)

highest_nodes-bits :
    (lo : ℕ) (n : Node) (rest : List Node)
    → Chain lo (n ∷ rest)
    → (get_nodes (n ∷ rest) (highest_nodes n rest) ≡ true)
      × (n.startbit ≤ highest_nodes n rest)
      × ((i : ℕ) → highest_nodes n rest < i → get_nodes (n ∷ rest) i ≡ false)
unfolding highest_nodes
highest_nodes-bits lo n [] c =
    let (k, run, lt, top) = top_pos-IsTop mapsize n.map 0 c.2 c.3 in
    let at : n.startbit + top_pos mapsize n.map 0 ≡ n.startbit + k = omega arith in
    (
      rw at (get_nodes_head n [] c k lt ∙ has_bit-test_bit n.map k ∙ top.set),
      omega arith,
      λ i h.
          unfold get_nodes in
          ground (arith, has_bit-test_bit n.map (i - n.startbit), top.last (i - n.startbit)),
    )
highest_nodes-bits lo n (m ∷ rest) c =
    let (set, from, last) = highest_nodes-bits (n.startbit + mapsize) m rest c.4 in
    (
      get_nodes_rest n (m ∷ rest) c (highest_nodes m rest) set,
      omega arith,
      λ i h. get_nodes_tail n (m ∷ rest) c i (omega arith) ∙ last i h,
    )

highest_of_nodes :
    (nodes : List Node) (highbit : ℕ)
    → Chain 0 nodes
    → nodes ≢ []
    → (get_nodes nodes (highest_set_bit (ebitmap nodes highbit)) ≡ true)
      × ((i : ℕ) → highest_set_bit (ebitmap nodes highbit) < i → get_nodes nodes i ≡ false)
unfolding highest_set_bit
highest_of_nodes [] highbit c h = absurd (h refl)
highest_of_nodes (n ∷ rest) highbit c h =
    let (set, from, last) = highest_nodes-bits 0 n rest c in (set, last)

-- In a well-formed bitmap that is not empty, the bit that `ebitmap_highest_set_bit` names is set and
-- every larger one is clear.
pub highest_set_bit-IsLast :
    (e : Ebitmap)
    → IsValid e
    → e.nodes ≢ []
    → (get_bit e (highest_set_bit e) ≡ true)
      × ((i : ℕ) → highest_set_bit e < i → get_bit e i ≡ false)
highest_set_bit-IsLast e v h =
    let (set, last) = highest_of_nodes e.nodes e.highbit v.chain h in
    (get_bit-nodes v (highest_set_bit e) ∙ set, λ i p. get_bit-nodes v i ∙ last i p)
