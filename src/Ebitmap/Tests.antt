-- ===== src/Ebitmap/Tests.antt =====
-- Concrete bitmaps for the set operations, the comparisons and the walks.
use ap_policy.Common.{
  ℕ, ◌≤◌, ◌<◌, ◌≡◌, ◌≢◌, ◌↔◌, refl, Bool, true, false, Option, some, none, List, [], ◌∷◌, arith,
  ltb, leb, ◌==◌, if◌then◌else◌, ◌&&◌, ◌||◌, ◌-◌,
}
use ap_policy.Common
use ap_policy.Common.Results.{ok}
use ap_policy.Ebitmap
use ap_policy.Ebitmap.{node, Ebitmap, ebitmap, get_bit, or, and, andnot, u32_mod, mapsize}
use ap_policy.Ebitmap.Shape.{IsValid}
use ap_policy.Ebitmap.Union.{or-bits}
use ap_policy.Ebitmap.Intersection.{and-bits}
use ap_policy.Ebitmap.Complement.{not-bits, not-diverges}
use ap_policy.Ebitmap.Compare.{cmp, contains}
use ap_policy.Ebitmap.Compare.Extensional.{cmp_iff}
use ap_policy.Ebitmap.Compare.Subset.{contains_iff}
use ap_policy.Ebitmap.Update.{set_bit}
use ap_policy.Ebitmap.Update.Laws.{set_bit-bits}
use ap_policy.Ebitmap.Range.{init_range}
use ap_policy.Ebitmap.Range.Laws.{init_range-bits}
use ap_policy.Ebitmap.Walk.{for_each_positive_bit}
use ap_policy.Ebitmap.Walk.Bits.{Ascending, occurs, for_each_positive_bit-bits}

-- the set of 0, 2 and 64
abbrev three_bits : Ebitmap
three_bits = ebitmap (node 0 5 ∷ node 64 1 ∷ []) 128

-- the set of 2 and 130
abbrev two_bits : Ebitmap
two_bits = ebitmap (node 0 4 ∷ node 128 4 ∷ []) 192

three_bits-IsValid : IsValid three_bits
three_bits-IsValid = record {
  chain = (
    omega arith,
    refl,
    omega arith,
    omega arith,
    (omega arith, refl, omega arith, omega arith, tt),
  );
  top = refl;
  fits = omega arith;
}

two_bits-IsValid : IsValid two_bits
two_bits-IsValid = record {
  chain = (
    omega arith,
    refl,
    omega arith,
    omega arith,
    (omega arith, refl, omega arith, omega arith, tt),
  );
  top = refl;
  fits = omega arith;
}

or-bits_example :
    IsValid (or three_bits two_bits)
    × ((i : ℕ) → get_bit (or three_bits two_bits) i ≡ (get_bit three_bits i || get_bit two_bits i))
or-bits_example = or-bits three_bits two_bits three_bits-IsValid two_bits-IsValid

and-bits_example :
    IsValid (and three_bits two_bits)
    × ((i : ℕ) → get_bit (and three_bits two_bits) i ≡ (get_bit three_bits i && get_bit two_bits i))
and-bits_example = and-bits three_bits two_bits three_bits-IsValid two_bits-IsValid

not-bits_example :
    (r : Ebitmap) × (Ebitmap.not 4 three_bits 130 ≡ some r)
    × IsValid r
    × ((i : ℕ) → get_bit r i ≡ (ltb i 130 && Common.not (get_bit three_bits i)))
not-bits_example = not-bits 4 three_bits 130 three_bits-IsValid (omega arith) (omega arith)

not-diverges_example : Ebitmap.not 7 three_bits 4294967295 ≡ none
not-diverges_example = not-diverges three_bits 4294967295 (omega arith) 7

cmp_iff_example :
    (cmp three_bits two_bits ≡ true) ↔ ((i : ℕ) → get_bit three_bits i ≡ get_bit two_bits i)
cmp_iff_example = cmp_iff three_bits two_bits three_bits-IsValid two_bits-IsValid

contains_iff_example :
    (contains three_bits two_bits ≡ true)
    ↔ ((i : ℕ) → get_bit two_bits i ≡ true → get_bit three_bits i ≡ true)
contains_iff_example = contains_iff three_bits two_bits three_bits-IsValid two_bits-IsValid

set_bit-bits_example :
    (e' : Ebitmap) × (set_bit three_bits 64 false ≡ ok e')
    × IsValid e'
    × ((i : ℕ) → get_bit e' i ≡ (if i == 64 then false else get_bit three_bits i))
set_bit-bits_example = set_bit-bits three_bits 64 false three_bits-IsValid (omega arith)

init_range-bits_example :
    (e : Ebitmap) × (init_range 4 3 70 ≡ some (ok e))
    × IsValid e
    × ((i : ℕ) → get_bit e i ≡ (leb 3 i && leb i 70))
init_range-bits_example = init_range-bits 4 3 70 (omega arith) (omega arith) (omega arith)

for_each_positive_bit-bits_example :
    (out : List ℕ) × (for_each_positive_bit 200 two_bits ≡ some out)
    × Ascending 0 out
    × ((i : ℕ) → occurs i out ≡ get_bit two_bits i)
for_each_positive_bit-bits_example =
    for_each_positive_bit-bits 200 two_bits two_bits-IsValid (omega arith)

not_empty : three_bits.nodes ≢ []
not_empty h = cc
