-- ===== src/Optimize/Tests.antt =====
-- A policy with an attribute, in which a rule for two types is covered by one for the attribute.
use ap_policy.Common.{
  ℕ, zero, suc, ◌+◌, ◌^◌, ◌<◌, ◌≡◌, refl, sym, ◌∙◌, true, false, none, some, inl, inr, [], ◌∷◌,
  List, arith, ◌==◌, Bool-cases,
}
use ap_policy.Common.Bits.{test_bit, test_bit-zero}
use ap_policy.Common.Bits.Masks.{mask-test_bit}
use ap_policy.Common.Buckets.{chain_at}
use ap_policy.Common.Results.{ok}
use ap_policy.Avtab.{AvtabNode, Avtab}
use ap_policy.Avtab.Table.{IsValid}
use ap_policy.Avtab.Chain.{IsSorted}
use ap_policy.Ebitmap.{Ebitmap, ebitmap, node, init, get_bit, get_nodes}
use ap_policy.Mls.{Context, level, levels}
use ap_policy.Optimize.{Types, build_type_map, optimize_avtab}
use ap_policy.Optimize.Masks.{allow}
use ap_policy.Optimize.Table.{av}
use ap_policy.Optimize.Walks.{TablePlain}
use ap_policy.Optimize.TypeMap.{IsCoherent, is_type}
use ap_policy.Optimize.Laws.{with_table, HasType}
use ap_policy.Optimize.Decisions.{SameBits, optimize_avtab-SameBits}
use ap_policy.Security.TypeRules.{Policy}
use ap_policy.Security.Decision.{Check, compute_av}
use ap_policy.Security.TypeRules.Gather.{IsSound}
use ap_policy.Security.Decision.Sound.{EndsIn}

abbrev context : ℕ → Context
context type = record {
  user = 1;
  role = 1;
  type = type;
  range = levels (level 0 init) (level 0 init);
}

abbrev rule : ℕ → ℕ → AvtabNode
rule source bits = record {
  key = record { source_type = source; target_type = 3; target_class = 1; specified = 1 };
  datum = record { data_bits = bits; xperms = none };
}

abbrev set_of : ℕ → Ebitmap
set_of bits = ebitmap (node 0 bits ∷ []) 64

-- the types 0 and 1, and the attribute 2 of both, each with itself as the policy's reader sets it
abbrev own_set : ℕ → Ebitmap
own_set zero = set_of 5
own_set (suc zero) = set_of 6
own_set (suc (suc zero)) = set_of 4
own_set (suc (suc (suc i))) = init

-- the types of a type or an attribute; an attribute is not among its own
abbrev types_of : ℕ → Ebitmap
types_of zero = set_of 1
types_of (suc zero) = set_of 2
types_of (suc (suc zero)) = set_of 3
types_of (suc (suc (suc i))) = init

abbrev attribute_set : ℕ → Ebitmap
attribute_set zero = init
attribute_set (suc i) = own_set i

abbrev types : Types
types = record {
  nprim = 3;
  present = λ i. true;
  is_attrib = λ i. i == 2;
  type_attr_map = own_set;
  attr_type_map = types_of;
}

abbrev table : Avtab
table = record { htable = (rule 1 2 ∷ []) ∷ (rule 3 6 ∷ []) ∷ []; nel = 2; nslot = 2; mask = 1 }

abbrev policy : Policy
policy = record {
  nprim = 1;
  constraints = λ c. [];
  validatetrans = λ c. [];
  type_attr_map = attribute_set;
  bounds = λ type. 0;
  dominates = λ role. init;
  te_avtab = table;
  te_cond_avtab = table;
  role_allow = [];
  process_class = 1;
  process_trans_dyntrans = 3;
  latest_granting = 0;
}

table-IsValid : IsValid table
unfolding chain_at
table-IsValid = record { room = omega arith; sorted = sorted }
  where
    sorted : (i : ℕ) → IsSorted (chain_at i table.htable)
    sorted zero = (tt, tt)
    sorted (suc zero) = (tt, tt)
    sorted (suc (suc i)) = tt

table-TablePlain : TablePlain table
unfolding chain_at
table-TablePlain zero = (av (allow refl) (omega arith), tt)
table-TablePlain (suc zero) = (av (allow refl) (omega arith), tt)
table-TablePlain (suc (suc i)) = tt

set_of-IsValid :
    (bits : ℕ) → 0 < bits → bits < 2 ^ 64 → ap_policy.Ebitmap.Shape.IsValid (set_of bits)
set_of-IsValid bits pos fits = record {
  chain = (omega arith, refl, pos, fits, tt);
  top = refl;
  fits = omega arith;
}

init-IsValid : ap_policy.Ebitmap.Shape.IsValid init
init-IsValid = record { chain = tt; top = refl; fits = omega arith }

own_set-IsValid : (i : ℕ) → ap_policy.Ebitmap.Shape.IsValid (own_set i)
own_set-IsValid zero = set_of-IsValid 5 (omega arith) (omega arith)
own_set-IsValid (suc zero) = set_of-IsValid 6 (omega arith) (omega arith)
own_set-IsValid (suc (suc zero)) = set_of-IsValid 4 (omega arith) (omega arith)
own_set-IsValid (suc (suc (suc i))) = init-IsValid

types_of-IsValid : (i : ℕ) → ap_policy.Ebitmap.Shape.IsValid (types_of i)
types_of-IsValid zero = set_of-IsValid 1 (omega arith) (omega arith)
types_of-IsValid (suc zero) = set_of-IsValid 2 (omega arith) (omega arith)
types_of-IsValid (suc (suc zero)) = set_of-IsValid 3 (omega arith) (omega arith)
types_of-IsValid (suc (suc (suc i))) = init-IsValid

set_of-bits : (bits i : ℕ) → get_bit (set_of bits) i ≡ true → test_bit bits i ≡ true
unfolding get_bit get_nodes
set_of-bits bits i h = ground (arith, mask-test_bit bits i)

init-bits : (i : ℕ) → get_bit init i ≡ false
unfolding get_bit get_nodes
init-bits i = ground arith

own_lem :
    (v i : ℕ)
    → is_type types v ≡ true
    → is_type types i ≡ true
    → get_bit (own_set v) i ≡ true
    → v ≡ i
unfolding is_type test_bit
own_lem v (suc (suc zero)) tv ti b = cc ti
own_lem (suc (suc zero)) i tv ti b = cc tv
own_lem zero zero tv ti b = refl
own_lem zero (suc zero) tv ti b = cc (set_of-bits 5 1 b)
own_lem zero (suc (suc (suc i))) tv ti b = cc (set_of-bits 5 (suc (suc (suc i))) b, test_bit-zero i)
own_lem (suc zero) zero tv ti b = cc (set_of-bits 6 0 b)
own_lem (suc zero) (suc zero) tv ti b = refl
own_lem (suc zero) (suc (suc (suc i))) tv ti b =
    cc (set_of-bits 6 (suc (suc (suc i))) b, test_bit-zero i)
own_lem (suc (suc (suc v))) i tv ti b = cc (b, init-bits i)

dual_lem : (v : ℕ) → is_type types v ≡ true → get_bit (own_set v) 2 ≡ get_bit (set_of 3) v
unfolding is_type get_bit get_nodes test_bit
dual_lem zero t = refl
dual_lem (suc zero) t = refl
dual_lem (suc (suc zero)) t = cc t
dual_lem (suc (suc (suc v))) t = elim (Bool-cases (get_bit (set_of 3) (suc (suc (suc v))))) [
  | inl set ↦ cc (set_of-bits 3 (suc (suc (suc v))) set, test_bit-zero (suc v))
  | inr clear ↦ init-bits 2 ∙ sym clear
]

small_lem : (v i : ℕ) → is_type types v ≡ true → get_bit (own_set v) i ≡ true → i + 1 < 2 ^ 16
unfolding is_type test_bit
small_lem v zero t b = omega arith
small_lem v (suc zero) t b = omega arith
small_lem v (suc (suc zero)) t b = omega arith
small_lem zero (suc (suc (suc i))) t b = cc (set_of-bits 5 (suc (suc (suc i))) b, test_bit-zero i)
small_lem (suc zero) (suc (suc (suc i))) t b =
    cc (set_of-bits 6 (suc (suc (suc i))) b, test_bit-zero i)
small_lem (suc (suc zero)) (suc (suc (suc i))) t b = cc t
small_lem (suc (suc (suc v))) (suc (suc (suc i))) t b = cc (b, init-bits (suc (suc (suc i))))

types-IsCoherent : IsCoherent types attribute_set
types-IsCoherent = record {
  by_index = λ i. refl;
  sets = own_set-IsValid;
  members = types_of-IsValid;
  own = own_lem;
  dual = dual;
  small = small_lem;
}
  where
    dual :
        (v a : ℕ)
        → is_type types v ≡ true
        → true ≡ true
        → (a == 2) ≡ true
        → get_bit (own_set v) a ≡ get_bit (types_of a) v
    dual v a t there h = let e : a ≡ 2 = ground arith in rw e (dual_lem v t)

-- the types of the two contexts
types-HasType : HasType types 1 × HasType types 2
unfolding is_type
types-HasType = ((omega arith, refl), (omega arith, refl))

policy-IsSound : IsSound policy
policy-IsSound = record { te = table-IsValid; cond = table-IsValid; attributes = attributes }
  where
    attributes : (type : ℕ) → ap_policy.Ebitmap.Shape.IsValid (attribute_set type)
    attributes zero = init-IsValid
    attributes (suc i) = own_set-IsValid i

abbrev ends : EndsIn policy 0 1
ends = refl

optimize_avtab-SameBits_example :
    (type_map : List (List ℕ)) × (build_type_map types ≡ some type_map)
    × (c : Check) × (compute_av 1 policy 1 (context 1) (context 2) 6 ≡ some (ok c))
    × (c' : Check) × (compute_av 1
          (with_table policy (optimize_avtab type_map table))
          1
          (context 1)
          (context 2)
          6
        ≡ some (ok c'))
    × ((k : ℕ) → k < 32 → SameBits c.avd c'.avd k)
optimize_avtab-SameBits_example =
    optimize_avtab-SameBits 0 policy types 1 6 (context 1) (context 2) policy-IsSound
      table-TablePlain (omega arith) types-IsCoherent (λ type h more. cc more) (omega arith)
      (omega arith) ends types-HasType.0 types-HasType.1
