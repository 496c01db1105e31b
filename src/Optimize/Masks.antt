-- ===== src/Optimize/Masks.antt =====
-- What `process_avtab_datum` leaves of an access vector rule, told for one permission.
use ap_policy.Common.{
  ℕ, ◌-◌, ◌^◌, ◌<◌, ◌≡◌, refl, Bool, true, false, arith, ◌==◌, if◌then◌else◌, ◌&&◌, not, bit_and,
  bit_or,
}
use ap_policy.Common.Bits.{test_bit, test_bit-or, test_bit-zero, bit_or-lt, bit_xor-lt, bit_and-lt}
use ap_policy.Common.Bits.Masks.{test_bit-low, test_bit-complement}
use ap_policy.Avtab.{Datum}
use ap_policy.Optimize.{process_avtab_datum}
use ap_policy.Security.TypeRules.{and_not, av_allowed, av_auditallow, av_auditdeny}
use ap_policy.Security.Decision.Limits.{test_bit-and_not}

-- the kinds of access vector rules
pub data IsAv (kind : ℕ) : Type 0 where
  allow : kind ≡ av_allowed → IsAv kind
  auditallow : kind ≡ av_auditallow → IsAv kind
  auditdeny : kind ≡ av_auditdeny → IsAv kind

-- the rule has the permission; a dontaudit rule has those that its mask leaves out
unfoldable pub holds : ℕ → ℕ → Datum → Bool
holds kind k d =
    if kind == av_auditdeny then not (test_bit d.data_bits k) else test_bit d.data_bits k

-- what the comparison of a rule with another one leaves of it
pub record Processed (kind : ℕ) (d1 d2 : Datum) (r : Bool × Datum) : Type 0 where
  pub left : (k : ℕ) → k < 32 → holds kind k r.1 ≡ (holds kind k d1 && not (holds kind k d2))
  pub nothing : r.0 ≡ true → (k : ℕ) → k < 32 → holds kind k r.1 ≡ false
  pub fits : r.1.data_bits < 2 ^ 32

all_ones : (bits k : ℕ) → (bits == 0xffffffff) ≡ true → k < 32 → test_bit bits k ≡ true
all_ones bits k h lt =
    let e : bits ≡ 0xffffffff = ground arith in let low = test_bit-low 32 k in rw e (ground arith)

no_ones : (bits k : ℕ) → (bits == 0) ≡ true → test_bit bits k ≡ false
no_ones bits k h = let e : bits ≡ 0 = ground arith in rw e (test_bit-zero k)

mask-Processed :
    (kind : ℕ) (d1 d2 : Datum)
    → (kind == av_auditdeny) ≡ false
    → d1.data_bits < 2 ^ 32
    → Processed kind d1 d2 (
      and_not d1.data_bits d2.data_bits == 0,
      record d1 { data_bits = and_not d1.data_bits d2.data_bits },
    )
unfolding holds
mask-Processed kind d1 d2 other f1 = record {
  left = λ k lt. ground (arith, test_bit-and_not d1.data_bits d2.data_bits k);
  nothing = λ h k lt. ground (arith, no_ones (and_not d1.data_bits d2.data_bits) k h);
  fits =
      bit_xor-lt 32 d1.data_bits (bit_and d1.data_bits d2.data_bits) f1
        (bit_and-lt 32 d1.data_bits d2.data_bits f1);
}

pub process_avtab_datum-Processed :
    (kind : ℕ) (d1 d2 : Datum)
    → IsAv kind
    → d1.data_bits < 2 ^ 32
    → d2.data_bits < 2 ^ 32
    → Processed kind d1 d2 (process_avtab_datum kind d1 d2)
unfolding process_avtab_datum holds
process_avtab_datum-Processed kind d1 d2 (allow e) f1 f2 = rw e (mask-Processed 1 d1 d2 refl f1)
process_avtab_datum-Processed kind d1 d2 (auditallow e) f1 f2 =
    rw e (mask-Processed 2 d1 d2 refl f1)
process_avtab_datum-Processed kind d1 d2 (auditdeny e) f1 f2 = rw e (record {
  left = λ k lt. ground (
    arith,
    test_bit-or d1.data_bits (2 ^ 32 - 1 - d2.data_bits) k,
    test_bit-complement 32 d2.data_bits k f2 lt,
  );
  nothing =
      λ h k lt. ground (arith, all_ones (bit_or d1.data_bits (2 ^ 32 - 1 - d2.data_bits)) k h lt);
  fits = bit_or-lt 32 d1.data_bits (2 ^ 32 - 1 - d2.data_bits) f1 (omega arith);
})
