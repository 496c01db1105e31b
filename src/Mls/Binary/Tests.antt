-- ===== src/Mls/Binary/Tests.antt =====
-- A concrete range, written and read back.
use ap_policy.Common.{◌+◌, ◌≡◌, refl, some, [], ◌∷◌, ◌++◌, arith, length}
use ap_policy.Common.Results.{ok}
use ap_policy.PolicyFile.{Target}
use ap_policy.PolicyFile.Words.{memory, target}
use ap_policy.Ebitmap.{ebitmap, node, init}
use ap_policy.Mls.{Level, level, levels, level_eq}
use ap_policy.Mls.Binary.{read_range, write_range}
use ap_policy.Mls.Binary.OneLevel.{IsStored}
use ap_policy.Mls.Binary.Write.{range_size}
use ap_policy.Mls.Binary.RoundTrip.{read_range-write_range}

abbrev low : Level
low = level 1 init

abbrev high : Level
high = level 3 (ebitmap (node 64 9 ∷ []) 128)

low-IsStored : IsStored low
low-IsStored = record {
  sens_fits = omega arith;
  cat_valid = record { chain = tt; top = refl; fits = omega arith };
}

high-IsStored : IsStored high
high-IsStored = record {
  sens_fits = omega arith;
  cat_valid = record {
    chain = (omega arith, refl, omega arith, omega arith, tt);
    top = refl;
    fits = omega arith;
  };
}

read_range-write_range_example :
    (fp : Target) × (write_range
        (levels low high)
        (target [] (range_size (levels low high) (level_eq high low) + 0))
      ≡ some fp)
    × (read_range (memory (fp.out ++ (7 ∷ [])) (length fp.out + 1))
        ≡ ok (record { value = levels low high; fp = memory (7 ∷ []) 1 }))
read_range-write_range_example =
    read_range-write_range (levels low high) (7 ∷ []) 0 1 low-IsStored high-IsStored
