-- ===== src/Ebitmap/Binary/RoundTrip.antt =====
-- A bitmap written to a binary policy and read back.
use ap_policy.Common.{
  ℕ, suc, ◌+◌, ◌-◌, ◌*◌, ◌%◌, ◌≤◌, ◌<◌, ◌≡◌, refl, sym, ap, ◌∙◌, true, false, Option, some, none,
  List, [], ◌∷◌, ◌++◌, arith, ltb, ◌==◌, not, length, length-append, bit_and,
}
use ap_policy.Common.Bits.Masks.{bit_and-low}
use ap_policy.Common.Results.{ok}
use ap_policy.PolicyFile.{le_bytes, le_word, taken, behind, Target}
use ap_policy.PolicyFile.Words.{
  le_word-le_bytes, length-le_bytes, taken-append, behind-append, memory, next_entry-append, target,
  append_assoc, append_nil,
}
use ap_policy.Ebitmap.{Node, Ebitmap, ebitmap, mapsize, map_mod, u32_mod}
use ap_policy.Ebitmap.Shape.{Chain, end_of, end_of-le, IsValid}
use ap_policy.Ebitmap.Compare.Subset.{end_of-mod}
use ap_policy.Ebitmap.Binary.{not_after, read_node, read_nodes, wrong_end, read_body, read, write}
use ap_policy.Ebitmap.Binary.Write.{
  node_bytes, head_bytes, length-head_bytes, length-node_bytes, count_bound, write-bytes,
}

-- one node read back
node_back :
    (n : Node) (highbit : ℕ) (last : Option ℕ) (rest : List ℕ) (len : ℕ)
    → n.startbit % mapsize ≡ 0
    → 0 < n.map
    → n.map < map_mod
    → n.startbit + mapsize ≤ highbit
    → highbit < u32_mod
    → not_after last n.startbit ≡ false
    → read_node highbit last
        (memory (le_bytes 4 n.startbit ++ (le_bytes 8 n.map ++ rest)) (4 + (8 + len)))
      ≡ ok (record { value = n; fp = memory rest len })
unfolding read_node
node_back n highbit last rest len aligned pos bits within fits later =
    let start = le_bytes 4 n.startbit in
    let map = le_bytes 8 n.map in
    let e1 = next_entry-append 4 (8 + len) start (map ++ rest) (length-le_bytes 4 n.startbit) in
    let e2 = next_entry-append 8 len map rest (length-le_bytes 8 n.map) in
    let w1 : le_word start ≡ n.startbit = le_word-le_bytes 4 n.startbit (omega arith) in
    let w2 : le_word map ≡ n.map = le_word-le_bytes 8 n.map (omega (arith, bits)) in
    let t1 : not (bit_and n.startbit (mapsize - 1) == 0) ≡ false =
      ground (arith, bit_and-low n.startbit) in
    let t2 : ltb (highbit - mapsize) n.startbit ≡ false = ground arith in
    let t3 : (n.map == 0) ≡ false = ground arith in
    rw (read_node, e1, w1, t1, t2, e2, w2, t3, later) refl

-- the last node read, and that it is the last before the nodes from `lo` on
abbrev last_of : Option ℕ → List Node → Option ℕ
last_of last [] = last
last_of last (n ∷ ns) = last_of (some n.startbit) ns

abbrev Before : Option ℕ → ℕ → Type 0
Before none lo = Unit {0}
Before (some last) lo = last < lo

Before-not_after : (last : Option ℕ) (lo n : ℕ) → Before last lo → lo ≤ n → not_after last n ≡ false
Before-not_after none lo n b h = refl
Before-not_after (some last) lo n b h = ground arith

nodes_back :
    (ns : List Node) (highbit lo : ℕ) (last : Option ℕ) (rest : List ℕ) (len : ℕ)
    → Chain lo ns
    → Before last lo
    → end_of lo ns ≤ highbit
    → highbit < u32_mod
    → read_nodes (length ns) highbit last (memory (node_bytes ns ++ rest) (12 * length ns + len))
      ≡ ok (record { value = record { nodes = ns; last = last_of last ns }; fp = memory rest len })
unfolding read_nodes
nodes_back [] highbit lo last rest len c b top fits =
    let same : 12 * 0 + len ≡ len = omega arith in rw same refl
nodes_back (n ∷ ns) highbit lo last rest len c b top fits =
    let tail = node_bytes ns ++ rest in
    let order : (le_bytes 4 n.startbit ++ (le_bytes 8 n.map ++ node_bytes ns)) ++ rest
        ≡ le_bytes 4 n.startbit ++ (le_bytes 8 n.map ++ tail) =
      append_assoc (le_bytes 4 n.startbit) (le_bytes 8 n.map ++ node_bytes ns) rest
      ∙ ap (λ x. le_bytes 4 n.startbit ++ x)
          (append_assoc (le_bytes 8 n.map) (node_bytes ns) rest) in
    let size : 12 * suc (length ns) + len ≡ 4 + (8 + (12 * length ns + len)) = omega arith in
    let first =
      node_back n highbit last tail (12 * length ns + len) c.1 c.2 c.3
        (omega (arith, top, end_of-le (n.startbit + mapsize) ns c.4)) fits
        (Before-not_after last lo n.startbit b c.0) in
    let others =
      nodes_back ns highbit (n.startbit + mapsize) (some n.startbit) rest len c.4 (omega arith) top
        fits in
    rw (read_nodes, size, order, first, others) refl

last_end :
    (l : ℕ) (ns : List Node) → wrong_end (last_of (some l) ns) (end_of (l + mapsize) ns) ≡ false
last_end l [] = ground arith
last_end l (n ∷ ns) = last_end n.startbit ns

chain_end : (ns : List Node) → wrong_end (last_of none ns) (end_of 0 ns) ≡ false
chain_end [] = refl
chain_end (n ∷ ns) = last_end n.startbit ns

body_back :
    (ns : List Node) (highbit : ℕ) (rest : List ℕ) (len : ℕ)
    → IsValid (ebitmap ns highbit)
    → read_body highbit (length ns) (memory (node_bytes ns ++ rest) (12 * length ns + len))
      ≡ ok (record { value = ebitmap ns highbit; fp = memory rest len })
unfolding read_body
body_back [] highbit rest len v =
    let same : 12 * 0 + len ≡ len = omega arith in
    let t : (highbit == 0) ≡ true = ground (arith, v.top) in
    rw (read_body, t, same)
      (ap (λ h. ok (record { value = ebitmap [] h; fp = memory rest len })) (sym v.top))
body_back (n ∷ ns) highbit rest len v =
    let some_set : (highbit == 0) ≡ false =
      ground (arith, v.top, end_of-le (n.startbit + mapsize) ns v.chain.4) in
    let aligned : not (bit_and highbit (mapsize - 1) == 0) ≡ false =
      ground (arith, v.top, bit_and-low highbit, end_of-mod 0 (n ∷ ns) (omega arith) v.chain) in
    let counted : (suc (length ns) == 0) ≡ false = ground arith in
    let run =
      nodes_back (n ∷ ns) highbit 0 none rest len v.chain tt (omega (arith, v.top)) v.fits in
    let ends : wrong_end (last_of none (n ∷ ns)) highbit ≡ false = rw v.top (chain_end (n ∷ ns)) in
    rw (read_body, some_set, aligned, counted, run, ends) refl

-- the head of the bitmap read back
head_back :
    (e : Ebitmap) (tail : List ℕ) (len : ℕ)
    → e.highbit < u32_mod
    → length e.nodes < u32_mod
    → read (memory (head_bytes e ++ tail) (12 + len))
      ≡ read_body e.highbit (length e.nodes) (memory tail len)
unfolding read
head_back e tail len fits number =
    let a = le_bytes 4 mapsize in
    let b = le_bytes 4 e.highbit in
    let c = le_bytes 4 (length e.nodes) in
    let e1 = next_entry-append 12 len (head_bytes e) tail (length-head_bytes e) in
    let ab = length-append a b in
    let la = length-le_bytes 4 mapsize in
    let lb = length-le_bytes 4 e.highbit in
    let t0 : le_word (taken 4 (head_bytes e)) ≡ mapsize =
      ap le_word (taken-append 4 a (b ++ c) la) ∙ le_word-le_bytes 4 mapsize (omega arith) in
    let t1 : le_word (taken 4 (behind 4 (head_bytes e))) ≡ e.highbit =
      ap (λ x. le_word (taken 4 x)) (behind-append 4 a (b ++ c) la)
      ∙ ap le_word (taken-append 4 b c lb)
      ∙ le_word-le_bytes 4 e.highbit (omega (arith, fits)) in
    let t2 : le_word (taken 4 (behind 8 (head_bytes e))) ≡ length e.nodes =
      ap (λ x. le_word (taken 4 (behind 8 x))) (sym (append_assoc a b c))
      ∙ ap (λ x. le_word (taken 4 x))
          (behind-append 8 (a ++ b) c (omega (arith, ab, la, lb)) ∙ append_nil c)
      ∙ ap le_word (taken-append 4 c [] (length-le_bytes 4 (length e.nodes)))
      ∙ le_word-le_bytes 4 (length e.nodes) (omega (arith, number)) in
    rw (read, e1, t0, t1, t2) refl

-- the layout of a bitmap, and its length
abbrev pub bitmap_bytes : Ebitmap → List ℕ
bitmap_bytes e = head_bytes e ++ node_bytes e.nodes

abbrev pub bitmap_size : Ebitmap → ℕ
bitmap_size e = 12 + 12 * length e.nodes

pub length-bitmap_bytes : (e : Ebitmap) → length (bitmap_bytes e) ≡ bitmap_size e
length-bitmap_bytes e = omega (
  arith,
  length-append (head_bytes e) (node_bytes e.nodes),
  length-head_bytes e,
  length-node_bytes e.nodes,
)

pub write_there :
    (e : Ebitmap) (out : List ℕ) (len room : ℕ)
    → IsValid e
    → len ≡ bitmap_size e + room
    → write e (target out len) ≡ some (target (out ++ bitmap_bytes e) room)
write_there e out len room v size =
    let split : len ≡ 12 + (12 * length e.nodes + room) = omega (arith, size) in
    rw (split, write-bytes e out room v, append_assoc out (head_bytes e) (node_bytes e.nodes)) refl

pub read_back :
    (e : Ebitmap) (rest : List ℕ) (len left : ℕ)
    → IsValid e
    → len ≡ bitmap_size e + left
    → read (memory (bitmap_bytes e ++ rest) len) ≡ ok (record { value = e; fp = memory rest left })
read_back e rest len left v size =
    let few : length e.nodes < u32_mod =
      omega (arith, count_bound 0 e.nodes v.chain, v.top, v.fits) in
    let split : len ≡ 12 + (12 * length e.nodes + left) = omega (arith, size) in
    rw (split, append_assoc (head_bytes e) (node_bytes e.nodes) rest)
      (head_back e (node_bytes e.nodes ++ rest) (12 * length e.nodes + left) v.fits few
        ∙ body_back e.nodes e.highbit rest left v)

-- A well-formed bitmap that `ebitmap_write` puts in memory with room for it is written, and
-- `ebitmap_read` of those bytes, whatever stands behind them, returns the bitmap and leaves the file
-- right behind it.
pub read-write :
    (e : Ebitmap) (rest : List ℕ) (room len : ℕ)
    → IsValid e
    → (fp : Target) × (write e (target [] (bitmap_size e + room)) ≡ some fp)
      × (read (memory (fp.out ++ rest) (length fp.out + len))
          ≡ ok (record { value = e; fp = memory rest len }))
read-write e rest room len v = (
  target (bitmap_bytes e) room,
  write_there e [] (bitmap_size e + room) room v refl,
  read_back e rest (length (bitmap_bytes e) + len) len v (omega (arith, length-bitmap_bytes e)),
)
