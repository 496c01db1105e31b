-- ===== src/Ebitmap/Binary/Read.antt =====
-- What `ebitmap_read` accepts: only well-formed bitmaps.
use ap_policy.Common.{
  ℕ, zero, suc, ◌+◌, ◌-◌, ◌%◌, ◌≤◌, ◌<◌, ◌≡◌, refl, sym, ap, ◌∙◌, Bool, true, false, Option, some,
  none, List, [], ◌∷◌, arith, ◌==◌, not, Bool-cases, inl, inr, length, bit_and,
}
use ap_policy.Common.Bits.Masks.{bit_and-low}
use ap_policy.Common.Results.{Result, ok, >>=-eq-ok, ok-injective}
use ap_policy.PolicyFile.{le_word, taken, behind, Source, next_entry}
use ap_policy.PolicyFile.Words.{le_word-lt, word_fits}
use ap_policy.Ebitmap.{Node, node, Ebitmap, ebitmap, mapsize, map_mod, u32_mod, init}
use ap_policy.Ebitmap.Shape.{Chain, end_of, end_of-le, IsValid}
use ap_policy.Ebitmap.Binary.{
  Loaded, refuse_if, not_after, read_node, Nodes, read_nodes, wrong_end, read_body, read,
}

-- what passes a test has no fault
refuse_if-eq-ok :
    {A : Type 0} (bad : Bool) (rest : Result A) {a : A}
    → refuse_if bad rest ≡ ok a
    → (bad ≡ false) × (rest ≡ ok a)
refuse_if-eq-ok true rest h = cc
refuse_if-eq-ok false rest h = (refl, h)

aligned_of : (n : ℕ) → not (bit_and n (mapsize - 1) == 0) ≡ false → n % mapsize ≡ 0
aligned_of n h = ground (arith, bit_and-low n)

-- a node that is accepted
record Accepted (highbit : ℕ) (last : Option ℕ) (n : Node) : Type 0 where
  aligned : n.startbit % mapsize ≡ 0
  within : n.startbit ≤ highbit - mapsize
  some_bit : 0 < n.map
  bits : n.map < map_mod
  later : not_after last n.startbit ≡ false

read_node-Accepted :
    (highbit : ℕ) (last : Option ℕ) (fp : Source) (r : Loaded Node)
    → read_node highbit last fp ≡ ok r
    → Accepted highbit last r.value
unfolding read_node
read_node-Accepted highbit last fp r h =
    let (t, first, h1) = >>=-eq-ok (next_entry fp 4) _ h in
    let (a, h2) = refuse_if-eq-ok _ _ h1 in
    let (w, h3) = refuse_if-eq-ok _ _ h2 in
    let (u, second, h4) = >>=-eq-ok (next_entry t.fp 8) _ h3 in
    let (z, h5) = refuse_if-eq-ok _ _ h4 in
    let (l, h6) = refuse_if-eq-ok _ _ h5 in
    let e : node (le_word t.buf) (le_word u.buf) ≡ r.value = ap (λ x. x.value) (ok-injective h6) in
    rw (← e) (record {
      aligned = aligned_of (le_word t.buf) a;
      within = ground (arith, w);
      some_bit = ground (arith, z);
      bits = word_fits t.fp 8 u second;
      later = l;
    })

-- where the nodes behind the last one may start
abbrev lower : Option ℕ → ℕ
lower none = 0
lower (some last) = last + mapsize

abbrev Aligned : Option ℕ → Type 0
Aligned none = Unit {0}
Aligned (some last) = last % mapsize ≡ 0

lower-le :
    (last : Option ℕ) (n : ℕ)
    → Aligned last
    → n % mapsize ≡ 0
    → not_after last n ≡ false
    → lower last ≤ n
lower-le none n a b h = omega arith
lower-le (some last) n a b h = ground arith

record AllAccepted (count : ℕ) (last : Option ℕ) (r : Nodes) : Type 0 where
  chain : Chain (lower last) r.nodes
  end : end_of (lower last) r.nodes ≡ lower r.last
  number : length r.nodes ≡ count

read_nodes-AllAccepted :
    (count highbit : ℕ) (last : Option ℕ) (fp : Source) (r : Loaded Nodes)
    → Aligned last
    → read_nodes count highbit last fp ≡ ok r
    → AllAccepted count last r.value
unfolding read_nodes
read_nodes-AllAccepted zero highbit last fp r a h =
    let e = ap (λ x. x.value) (ok-injective h) in
    rw (← e) (record { chain = tt; end = refl; number = refl })
read_nodes-AllAccepted (suc count) highbit last fp r a h =
    let (n, first, h1) = >>=-eq-ok (read_node highbit last fp) _ h in
    let (rest, others, h2) =
      >>=-eq-ok (read_nodes count highbit (some n.value.startbit) n.fp) _ h1 in
    let acc = read_node-Accepted highbit last fp n first in
    let more =
      read_nodes-AllAccepted count highbit (some n.value.startbit) n.fp rest acc.aligned others in
    let e = ap (λ x. x.value) (ok-injective h2) in
    rw (← e) (record {
      chain = (
        lower-le last n.value.startbit a acc.aligned acc.later,
        acc.aligned,
        acc.some_bit,
        acc.bits,
        more.chain,
      );
      end = more.end;
      number = ap suc more.number;
    })

-- nodes that are there end above 0
some_end : (r : Nodes) (count : ℕ) → AllAccepted (suc count) none r → 0 < lower r.last
some_end r count a = go r.nodes a.chain a.end a.number
  where
    go :
        (ns : List Node)
        → Chain 0 ns
        → end_of 0 ns ≡ lower r.last
        → length ns ≡ suc count
        → 0 < lower r.last
    go [] c e l = absurd (omega arith)
    go (n ∷ ns) c e l = omega (arith, end_of-le (n.startbit + mapsize) ns c.4)

wrong_end-lower :
    (last : Option ℕ) (highbit : ℕ)
    → 0 < lower last
    → wrong_end last highbit ≡ false
    → lower last ≡ highbit
wrong_end-lower none highbit pos h = absurd (omega arith)
wrong_end-lower (some last) highbit pos h = ground arith

nodes-IsValid :
    (count highbit : ℕ) (r : Nodes)
    → highbit < u32_mod
    → (count == 0) ≡ false
    → AllAccepted count none r
    → wrong_end r.last highbit ≡ false
    → IsValid (ebitmap r.nodes highbit)
nodes-IsValid zero highbit r fits some_count a h = absurd (ground arith)
nodes-IsValid (suc count) highbit r fits some_count a h = record {
  chain = a.chain;
  top = sym (a.end ∙ wrong_end-lower r.last highbit (some_end r count a) h);
  fits = fits;
}

init-IsValid : IsValid init
init-IsValid = record { chain = tt; top = refl; fits = omega arith }

read_body-IsValid :
    (highbit count : ℕ) (fp : Source) (r : Loaded Ebitmap)
    → highbit < u32_mod
    → read_body highbit count fp ≡ ok r
    → IsValid r.value
unfolding read_body
read_body-IsValid highbit count fp r fits h = elim (Bool-cases (highbit == 0)) [
  | inl none_set ↦
      let e = ap (λ (x : Loaded Ebitmap). x.value) (ok-injective (rw none_set at h)) in
      rw (← e) init-IsValid
  | inr some_set ↦
      let (a, h1) = refuse_if-eq-ok _ _ (rw some_set at h) in
      let (c, h2) = refuse_if-eq-ok _ _ h1 in
      let (ns, run, h3) = >>=-eq-ok (read_nodes count highbit none fp) _ h2 in
      let (w, h4) = refuse_if-eq-ok _ _ h3 in
      let e = ap (λ (x : Loaded Ebitmap). x.value) (ok-injective h4) in
      rw (← e) (
        nodes-IsValid count highbit ns.value fits c
          (read_nodes-AllAccepted count highbit none fp ns tt run) w)
]

-- Whatever the bytes of a file, a bitmap that `ebitmap_read` returns from it is well formed: its nodes
-- start at increasing multiples of the map size, none of them is empty, and the high bit is the end
-- of the last one.
pub read-IsValid : (fp : Source) (r : Loaded Ebitmap) → read fp ≡ ok r → IsValid r.value
unfolding read
read-IsValid fp r h =
    let (t, head, h1) = >>=-eq-ok (next_entry fp 12) _ h in
    let highbit = le_word (taken 4 (behind 4 t.buf)) in
    let count = le_word (taken 4 (behind 8 t.buf)) in
    let (size, h2) = refuse_if-eq-ok _ (read_body highbit count t.fp) h1 in
    read_body-IsValid highbit count t.fp r (omega (arith, le_word-lt 4 (behind 4 t.buf))) h2
