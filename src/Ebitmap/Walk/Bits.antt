-- ===== src/Ebitmap/Walk/Bits.antt =====
-- `ebitmap_for_each_positive_bit` visits each set bit once, in increasing order.
use ap_policy.Common.{
  ℕ, zero, suc, ◌+◌, ◌-◌, ◌%◌, ◌≤◌, ◌<◌, ◌≡◌, refl, sym, ◌∙◌, Bool, true, false, some, List, [],
  ◌∷◌, ltb, leb, ◌==◌, if◌then◌else◌, ◌||◌, ◌&&◌, arith, inl, inr, Bool-cases,
}
use ap_policy.Ebitmap.{Node, Ebitmap, ebitmap, mapsize, u32_mod, get_nodes, get_bit}
use ap_policy.Ebitmap.Shape.{Chain, end_of, end_of-le, IsValid, get_bit-nodes}
use ap_policy.Ebitmap.Walk.{Cursor, cursor, next, node_get_bit, for_each, for_each_positive_bit}

abbrev pub occurs : ℕ → List ℕ → Bool
occurs i [] = false
occurs i (x ∷ xs) = i == x || occurs i xs

abbrev pub Ascending : ℕ → List ℕ → Type 0
Ascending lo [] = Unit {0}
Ascending lo (x ∷ xs) = (lo ≤ x) × Ascending (x + 1) xs

pub Ascending-le : {lo hi : ℕ} (xs : List ℕ) → lo ≤ hi → Ascending hi xs → Ascending lo xs
Ascending-le [] h a = tt
Ascending-le (x ∷ xs) h a = (omega arith, a.1)

-- what the loop visits from `bit` on, in the nodes from the cursor on
record Visits (n : Node) (rest : List Node) (bit : ℕ) (out : List ℕ) : Type 0 where
  ascending : Ascending bit out
  visited : (i : ℕ) → occurs i out ≡ (leb bit i && get_nodes (n ∷ rest) i)

module _ (n : Node) (rest : List Node) (bit : ℕ) (out : List ℕ) (from : n.startbit ≤ bit)
    (to : bit < n.startbit + mapsize) where
  -- one bit is taken in front of what is visited behind it
  take_bit :
      Visits n rest (bit + 1) out
      → Visits n rest bit (if node_get_bit n bit then bit ∷ out else out)
  unfolding node_get_bit
  take_bit v = elim (Bool-cases (node_get_bit n bit)) [
    | inl set ↦ rw set (record {
      ascending = (omega arith, v.ascending);
      visited = λ i. unfold get_nodes in ground (arith, v.visited i);
    })
    | inr clear ↦ rw clear (record {
      ascending = Ascending-le out (omega arith) v.ascending;
      visited = λ i. unfold get_nodes in ground (arith, v.visited i);
    })
  ]

-- behind the last bit of the last node nothing is visited
no_more :
    (n : Node) (bit : ℕ)
    → Chain n.startbit (n ∷ [])
    → bit ≡ n.startbit + mapsize
    → Visits n [] bit []
unfolding get_nodes
no_more n bit c e = record { ascending = tt; visited = λ i. ground arith }

-- the step to the next node skips no bit
jump :
    (n m : Node) (rest : List Node) (bit : ℕ) (out : List ℕ)
    → Chain n.startbit (n ∷ m ∷ rest)
    → bit ≡ n.startbit + mapsize
    → Visits m rest m.startbit out
    → Visits n (m ∷ rest) bit out
unfolding get_nodes
jump n m rest bit out c e v = record {
  ascending = Ascending-le out (omega arith) v.ascending;
  visited = λ i. ground (arith, v.visited i);
}

module _ (len : ℕ) (fits : len < u32_mod) where
  for_each_step :
      (fuel : ℕ) (c c' : Cursor) (out : List ℕ)
      → ltb c.bit len ≡ true
      → next c.here c.rest c.bit ≡ c'
      → for_each fuel c' len ≡ some out
      → for_each (suc fuel) c len ≡ some (if node_get_bit c.here c.bit then c.bit ∷ out else out)
  unfolding for_each
  for_each_step fuel c c' out more step run = rw (more, for_each, step, run) refl

  for_each_end :
      (fuel : ℕ) (c : Cursor) → len < c.bit + fuel → c.bit ≡ len → for_each fuel c len ≡ some []
  unfolding for_each
  for_each_end zero c h e = absurd (omega arith)
  for_each_end (suc fuel) c h e =
      let done : ltb c.bit len ≡ false = ground arith in rw (done, for_each) refl

  for_each-Visits :
      (fuel : ℕ) (n : Node) (rest : List Node) (bit : ℕ)
      → Chain n.startbit (n ∷ rest)
      → len ≡ end_of (n.startbit + mapsize) rest
      → n.startbit ≤ bit
      → bit < n.startbit + mapsize
      → len < bit + fuel
      → (out : List ℕ) × (for_each fuel (cursor n rest bit) len ≡ some out) × Visits n rest bit out
  for_each-Visits zero n rest bit c top from to enough =
      absurd (omega (arith, end_of-le (n.startbit + mapsize) rest c.4))
  for_each-Visits (suc fuel) n [] bit c top from to enough =
      let more : ltb bit len ≡ true = ground arith in
      let wrap : (bit + 1) % u32_mod ≡ bit + 1 = omega arith in
      let step : next n [] bit ≡ cursor n [] (bit + 1) = unfold next in rw wrap refl in
      elim (Bool-cases (ltb (bit + 1) len)) [
        | inl inside ↦
            let (out, run, v) =
              for_each-Visits fuel n [] (bit + 1) c top (omega arith) (ground arith)
                (omega arith) in
            (
              _,
              for_each_step fuel (cursor n [] bit) _ out more step run,
              take_bit n [] bit out from to v,
            )
        | inr last ↦
            let run = for_each_end fuel (cursor n [] (bit + 1)) (omega arith) (ground arith) in
            (
              _,
              for_each_step fuel (cursor n [] bit) _ [] more step run,
              take_bit n [] bit [] from to (no_more n (bit + 1) c (ground arith)),
            )
      ]
  for_each-Visits (suc fuel) n (m ∷ rest) bit c top from to enough =
      let more : ltb bit len ≡ true = ground (arith, end_of-le (m.startbit + mapsize) rest c.4.4) in
      elim (Bool-cases (bit == n.startbit + mapsize - 1)) [
        | inl last ↦
            let step : next n (m ∷ rest) bit ≡ cursor m rest m.startbit =
              unfold next in rw last refl in
            let c' : Chain m.startbit (m ∷ rest) = (omega arith, c.4.1, c.4.2, c.4.3, c.4.4) in
            let (out, run, v) =
              for_each-Visits fuel m rest m.startbit c' top (omega arith) (omega arith)
                (ground arith) in
            (
              _,
              for_each_step fuel (cursor n (m ∷ rest) bit) _ out more step run,
              take_bit n (m ∷ rest) bit out from to
                  (jump n m rest (bit + 1) out c (ground arith) v),
            )
        | inr inner ↦
            let wrap : (bit + 1) % u32_mod ≡ bit + 1 =
              omega (arith, end_of-le (m.startbit + mapsize) rest c.4.4) in
            let step : next n (m ∷ rest) bit ≡ cursor n (m ∷ rest) (bit + 1) =
              unfold next in rw (inner, wrap) refl in
            let (out, run, v) =
              for_each-Visits fuel n (m ∷ rest) (bit + 1) c top (omega arith) (ground arith)
                (omega arith) in
            (
              _,
              for_each_step fuel (cursor n (m ∷ rest) bit) _ out more step run,
              take_bit n (m ∷ rest) bit out from to v,
            )
      ]

visit_all :
    (fuel : ℕ) (nodes : List Node) (highbit : ℕ)
    → Chain 0 nodes
    → highbit ≡ end_of 0 nodes
    → highbit < u32_mod
    → highbit < fuel
    → (out : List ℕ) × (for_each_positive_bit fuel (ebitmap nodes highbit) ≡ some out)
      × Ascending 0 out
      × ((i : ℕ) → occurs i out ≡ get_nodes nodes i)
unfolding for_each_positive_bit
visit_all fuel [] highbit c top fits h = ([], refl, tt, λ i. unfold get_nodes in refl)
visit_all fuel (n ∷ rest) highbit c top fits h =
    let c' : Chain n.startbit (n ∷ rest) = (omega arith, c.1, c.2, c.3, c.4) in
    let (out, run, v) =
      for_each-Visits highbit fits fuel n rest n.startbit c' top (omega arith) (omega arith)
        (omega arith) in
    (
      out,
      run,
      Ascending-le out (omega arith) v.ascending,
      λ i. unfold get_nodes in ground (arith, v.visited i),
    )

-- For a well-formed bitmap and fuel above its high bit, `ebitmap_for_each_positive_bit` ends; it
-- visits a bit exactly when it is set, and the bits in strictly increasing order, so each one once.
pub for_each_positive_bit-bits :
    (fuel : ℕ) (e : Ebitmap)
    → IsValid e
    → e.highbit < fuel
    → (out : List ℕ) × (for_each_positive_bit fuel e ≡ some out)
      × Ascending 0 out
      × ((i : ℕ) → occurs i out ≡ get_bit e i)
for_each_positive_bit-bits fuel e v h =
    let (out, run, asc, bits) = visit_all fuel e.nodes e.highbit v.chain v.top v.fits h in
    (out, run, asc, λ i. bits i ∙ sym (get_bit-nodes v i))
