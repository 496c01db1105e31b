-- ===== src/Ebitmap/Window.antt =====
-- What a well-formed node list shows of its first node and of the rest.
use ap_policy.Common.{ℕ, ◌+◌, ◌-◌, ◌≤◌, ◌<◌, ◌≡◌, ◌∙◌, List, ◌∷◌, arith, true}
use ap_policy.Common.Bits.{eq_of_test_bit}
use ap_policy.Common.Bits.Masks.{set_bit_of_pos}
use ap_policy.Ebitmap.{Node, mapsize, map_mod, get_nodes, has_bit}
use ap_policy.Ebitmap.Maps.{has_bit-test_bit}
use ap_policy.Ebitmap.Shape.{Chain, get_nodes_below}

module _ {lo : ℕ} (n : Node) (rest : List Node) (c : Chain lo (n ∷ rest)) where
  pub get_nodes_head :
      (k : ℕ) → k < mapsize → get_nodes (n ∷ rest) (n.startbit + k) ≡ has_bit n.map k
  unfolding get_nodes
  get_nodes_head k h = let off : n.startbit + k - n.startbit ≡ k = omega arith in ground arith

  pub get_nodes_tail :
      (i : ℕ) → n.startbit + mapsize ≤ i → get_nodes (n ∷ rest) i ≡ get_nodes rest i
  unfolding get_nodes
  get_nodes_tail i h = ground arith

  -- the rest has no bit that the whole list lacks
  pub get_nodes_rest : (i : ℕ) → get_nodes rest i ≡ true → get_nodes (n ∷ rest) i ≡ true
  unfolding get_nodes
  get_nodes_rest i h = ground (arith, get_nodes_below (n.startbit + mapsize) i rest c.4)

  -- the first node has a bit
  pub first_bit : (k : ℕ) × (k < mapsize) × (get_nodes (n ∷ rest) (n.startbit + k) ≡ true)
  first_bit =
      let (k, lt, set) = set_bit_of_pos mapsize n.map c.2 c.3 in
      (k, lt, get_nodes_head k lt ∙ has_bit-test_bit n.map k ∙ set)

-- maps with the same bits are equal
pub eq_of_has_bit :
    (a b : ℕ)
    → a < map_mod
    → b < map_mod
    → ((k : ℕ) → k < mapsize → has_bit a k ≡ has_bit b k)
    → a ≡ b
eq_of_has_bit a b p q agree =
    eq_of_test_bit mapsize a b p q
      (λ k h. rw (← has_bit-test_bit a k, ← has_bit-test_bit b k) (agree k h))
