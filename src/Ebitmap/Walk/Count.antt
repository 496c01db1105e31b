-- ===== src/Ebitmap/Walk/Count.antt =====
-- `ebitmap_cardinality` counts the set bits, and `ebitmap_hamming_distance` those that differ.
use ap_policy.Common.{
  ℕ, zero, suc, ◌+◌, ◌-◌, ◌/◌, ◌%◌, ◌≤◌, ◌<◌, ◌≡◌, refl, sym, ◌∙◌, Bool, true, false, List, [], ◌∷◌,
  ◌==◌, if◌then◌else◌, arith, inl, inr, Bool-cases, max, xor as xor_bool,
}
use native.Mathlib.Nat.{add_assoc, zero-add}
use ap_policy.Common.Bits.{test_bit}
use ap_policy.Ebitmap.{Node, Ebitmap, mapsize, u32_mod, get_nodes, get_bit, xor}
use ap_policy.Ebitmap.Compare.{cmp}
use ap_policy.Ebitmap.Compare.Extensional.{eq_of_cmp}
use ap_policy.Ebitmap.Difference.{xor-bits, xor-highbit}
use ap_policy.Ebitmap.Maps.{has_bit-test_bit}
use ap_policy.Ebitmap.Shape.{
  Chain, end_of, end_of-le, IsValid, get_nodes_below, get_nodes_past, get_bit-nodes,
}
use ap_policy.Ebitmap.Window.{get_nodes_head, get_nodes_tail}
use ap_policy.Ebitmap.Walk.{popcount, cardinality_nodes, cardinality, hamming_distance}

-- how many of the `n` numbers from `i` on pass the test
pub count_from : ℕ → ℕ → (ℕ → Bool) → ℕ
count_from i zero p = 0
count_from i (suc n) p = (if p i then 1 else 0) + count_from (i + 1) n p

pub count_from_congr :
    (i n : ℕ) (p q : ℕ → Bool)
    → ((j : ℕ) → i ≤ j → j < i + n → p j ≡ q j)
    → count_from i n p ≡ count_from i n q
unfolding count_from
count_from_congr i zero p q h = refl
count_from_congr i (suc n) p q h = rw (
  h i (omega arith) (omega arith),
  count_from_congr (i + 1) n p q (λ j a b. h j (omega arith) (omega arith)),
)

pub count_from-false :
    (i n : ℕ) (p : ℕ → Bool) → ((j : ℕ) → i ≤ j → j < i + n → p j ≡ false) → count_from i n p ≡ 0
unfolding count_from
count_from-false i zero p h = refl
count_from-false i (suc n) p h = ground (
  arith,
  h i (omega arith) (omega arith),
  count_from-false (i + 1) n p (λ j a b. h j (omega arith) (omega arith)),
)

pub count_from-add :
    (i m n k : ℕ) (p : ℕ → Bool)
    → k ≡ m + n
    → count_from i k p ≡ count_from i m p + count_from (i + m) n p
unfolding count_from
count_from-add i zero n k p e =
    let k' : k ≡ n = omega arith in let i' : i + 0 ≡ i = omega arith in rw (k', i') (omega arith)
count_from-add i (suc m) n zero p e = absurd (omega arith)
count_from-add i (suc m) n (suc k) p e =
    let i' : i + suc m ≡ i + 1 + m = omega arith in
    rw i' (omega (arith, count_from-add (i + 1) m n k p (omega arith)))

pub count_from-le : (i n : ℕ) (p : ℕ → Bool) → count_from i n p ≤ n
unfolding count_from
count_from-le i zero p = omega arith
count_from-le i (suc n) p = ground (arith, count_from-le (i + 1) n p)

-- the ones of a map are its bits, counted from any start
popcount-count_from :
    (w m i : ℕ) (p : ℕ → Bool)
    → ((k : ℕ) → k < w → p (i + k) ≡ test_bit m k)
    → popcount w m ≡ count_from i w p
unfolding popcount count_from test_bit
popcount-count_from zero m i p h = refl
popcount-count_from (suc w) m i p h =
    let first : p i ≡ (m % 2 == 1) = rw (i0 i) at (h 0 (omega arith)) in
    let rest =
      popcount-count_from w (m / 2) (i + 1) p
        (λ k lt. rw (← shift i k) at (h (suc k) (omega arith))) in
    ground arith
  where
    i0 : (a : ℕ) → a + 0 ≡ a
    i0 a = omega arith

    shift : (a k : ℕ) → a + 1 + k ≡ a + suc k
    shift a k = omega arith

-- the bits of the first node, and of the rest, in a range that starts at or before the first node
module _ (lo : ℕ) (n : Node) (rest : List Node) (c : Chain lo (n ∷ rest)) where
  count_gap : count_from lo (n.startbit - lo) (get_nodes (n ∷ rest)) ≡ 0
  count_gap =
      let c' : Chain n.startbit (n ∷ rest) = (omega arith, c.1, c.2, c.3, c.4) in
      count_from-false lo (n.startbit - lo) _
        (λ j a b. get_nodes_below n.startbit j (n ∷ rest) c' (omega arith))

  count_window : count_from n.startbit mapsize (get_nodes (n ∷ rest)) ≡ popcount mapsize n.map
  count_window = sym (
      popcount-count_from mapsize n.map n.startbit (get_nodes (n ∷ rest))
        (λ k h. get_nodes_head n rest c k h ∙ has_bit-test_bit n.map k))

  count_rest :
      (m : ℕ)
      → count_from (n.startbit + mapsize) m (get_nodes (n ∷ rest))
        ≡ count_from (n.startbit + mapsize) m (get_nodes rest)
  count_rest m =
      count_from_congr (n.startbit + mapsize) m _ _ (λ j a b. get_nodes_tail n rest c j a)

  count_cons :
      (k m : ℕ)
      → k ≡ n.startbit - lo + (mapsize + m)
      → count_from lo k (get_nodes (n ∷ rest))
        ≡ popcount mapsize n.map + count_from (n.startbit + mapsize) m (get_nodes rest)
  count_cons k m e =
      let p = get_nodes (n ∷ rest) in
      let start : lo + (n.startbit - lo) ≡ n.startbit = omega arith in
      let gap = rw start at (count_from-add lo (n.startbit - lo) (mapsize + m) k p e) in
      let window = count_from-add n.startbit mapsize m (mapsize + m) p refl in
      omega (arith, gap, window, count_gap, count_window, count_rest m)

-- the sums of one round, over plain numbers
sum_fits :
    (count pop lo start end : ℕ)
    → count ≤ lo
    → lo ≤ start
    → start + mapsize ≤ end
    → end < u32_mod
    → pop ≤ mapsize
    → ((count + pop) % u32_mod ≡ count + pop) × (count + pop ≤ start + mapsize)
sum_fits count pop lo start end a b c d e = (omega arith, omega arith)

gap_sum :
    (lo start end : ℕ)
    → lo ≤ start
    → start + mapsize ≤ end
    → end - lo ≡ start - lo + (mapsize + (end - (start + mapsize)))
gap_sum lo start end a b = omega arith

cardinality_nodes-count :
    (lo count : ℕ) (xs : List Node)
    → Chain lo xs
    → count ≤ lo
    → end_of lo xs < u32_mod
    → cardinality_nodes xs count ≡ count + count_from lo (end_of lo xs - lo) (get_nodes xs)
unfolding cardinality_nodes
cardinality_nodes-count lo count [] c h fits =
    let none : lo - lo ≡ 0 = omega arith in rw none (unfold count_from in omega arith)
cardinality_nodes-count lo count (n ∷ rest) c h fits =
    let next = n.startbit + mapsize in
    let pop = popcount mapsize n.map in
    let small = count_from-le n.startbit mapsize (get_nodes (n ∷ rest)) in
    let pops : pop ≤ mapsize = rw (count_window lo n rest c) at small in
    let (wrap, below) =
      sum_fits count pop lo n.startbit (end_of next rest) h c.0 (end_of-le next rest c.4) fits
        pops in
    let ih = cardinality_nodes-count next (count + pop) rest c.4 below fits in
    let split =
      count_cons lo n rest c (end_of next rest - lo) (end_of next rest - next)
        (gap_sum lo n.startbit (end_of next rest) c.0 (end_of-le next rest c.4)) in
    rw (wrap, split) (ih ∙ add_assoc count pop _)

-- the count does not change when the range grows past the last node
count_nodes_past :
    (xs : List Node) (m : ℕ)
    → Chain 0 xs
    → end_of 0 xs ≤ m
    → count_from 0 m (get_nodes xs) ≡ count_from 0 (end_of 0 xs) (get_nodes xs)
count_nodes_past xs m c h =
    let end = end_of 0 xs in
    let split = count_from-add 0 end (m - end) m (get_nodes xs) (omega arith) in
    let none =
      count_from-false (0 + end) (m - end) (get_nodes xs)
        (λ j a b. get_nodes_past 0 j xs c (omega arith)) in
    omega (arith, split, none)

-- `ebitmap_cardinality` of a well-formed bitmap is the number of set bits below any bound from its
-- high bit on; the 32-bit count does not wrap.
pub cardinality-count :
    (e : Ebitmap) (m : ℕ) → IsValid e → e.highbit ≤ m → cardinality e ≡ count_from 0 m (get_bit e)
unfolding cardinality
cardinality-count e m v h =
    let nodes = cardinality_nodes-count 0 0 e.nodes v.chain (omega arith) (omega arith) in
    let past = count_nodes_past e.nodes m v.chain (omega arith) in
    let same = count_from_congr 0 m (get_bit e) (get_nodes e.nodes) (λ j a b. get_bit-nodes v j) in
    let whole : end_of 0 e.nodes - 0 ≡ end_of 0 e.nodes = omega arith in
    (rw (whole, zero-add) at nodes) ∙ sym past ∙ sym same

-- `ebitmap_hamming_distance` of two well-formed bitmaps is the number of bits, below both high bits
-- or any larger bound, that are set in one of them and not in the other.
pub hamming_distance-count :
    (e1 e2 : Ebitmap) (m : ℕ)
    → IsValid e1
    → IsValid e2
    → max e1.highbit e2.highbit ≤ m
    → hamming_distance e1 e2 ≡ count_from 0 m (λ i. xor_bool (get_bit e1 i) (get_bit e2 i))
unfolding hamming_distance
hamming_distance-count e1 e2 m v1 v2 h = elim (Bool-cases (cmp e1 e2)) [
  | inl equal ↦
      let none =
        count_from-false 0 m (λ i. xor_bool (get_bit e1 i) (get_bit e2 i))
          (λ j a b. rw (eq_of_cmp e1 e2 equal) (xor_self (get_bit e2 j))) in
      rw equal (sym none)
  | inr differ ↦
      let (valid, bits) = xor-bits e1 e2 v1 v2 in
      rw differ (
        cardinality-count (xor e1 e2) m valid (omega (arith, xor-highbit e1 e2 v1 v2))
        ∙ count_from_congr 0 m _ _ (λ j a b. bits j))
]
  where
    xor_self : (b : Bool) → xor_bool b b ≡ false
    xor_self true = unfold xor_bool in refl
    xor_self false = unfold xor_bool in refl
