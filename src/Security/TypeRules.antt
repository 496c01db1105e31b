-- ===== src/Security/TypeRules.antt =====
-- The rules of the two access vector tables in libsepol/src/services.c: the first part of
-- `context_struct_compute_av`, and `cond_compute_av` of libsepol/src/conditional.c.
pub mod Gather
use ap_policy.Common.{
  ℕ, zero, suc, ◌+◌, ◌%◌, ◌^◌, Bool, true, false, Option, some, none, List, [], ◌∷◌, ltb, ◌==◌,
  if◌then◌else◌, ◌&&◌, ◌||◌, not, bit_and, bit_or, bit_xor,
}
use ap_policy.Avtab.{Key, AvtabNode, Avtab}
use ap_policy.Avtab.Walk.{for_nodes}
use ap_policy.Ebitmap.{Ebitmap}
use ap_policy.Ebitmap.Walk.{for_each_positive_bit}
use ap_policy.Mls.{Context}
use ap_policy.Security.Constraint.{ConstraintNode}

pub record AvDecision : Type 0 where
  pub allowed : ℕ
  pub decided : ℕ
  pub auditallow : ℕ
  pub auditdeny : ℕ
  pub seqno : ℕ

pub record RoleAllow : Type 0 where
  pub role : ℕ
  pub new_role : ℕ

-- what of `policydb` and of the variables of services.c is read; an array or a datum that is found by a
-- value is a function of the value
pub record Policy : Type 0 where
  pub nprim : ℕ
  pub constraints : ℕ → List ConstraintNode
  pub validatetrans : ℕ → List ConstraintNode
  pub type_attr_map : ℕ → Ebitmap
  pub bounds : ℕ → ℕ
  pub dominates : ℕ → Ebitmap
  pub te_avtab : Avtab
  pub te_cond_avtab : Avtab
  pub role_allow : List RoleAllow
  pub process_class : ℕ
  pub process_trans_dyntrans : ℕ
  pub latest_granting : ℕ

-- AVTAB_ALLOWED, AVTAB_AUDITALLOW, AVTAB_AUDITDENY and AVTAB_AV
abbrev pub av_allowed : ℕ
av_allowed = 1

abbrev pub av_auditallow : ℕ
av_auditallow = 2

abbrev pub av_auditdeny : ℕ
av_auditdeny = 4

abbrev pub av_rules : ℕ
av_rules = 7

-- `a & ~b`
abbrev pub and_not : ℕ → ℕ → ℕ
and_not a b = bit_xor a (bit_and a b)

-- the rule is of this kind and AVTAB_ENABLED
pub is_enabled : ℕ → AvtabNode → Bool
is_enabled kind node = bit_or kind 0x8000 == bit_and node.key.specified (bit_or kind 0x8000)

-- the body of the loop over the rules of the table `te_avtab`
unfoldable pub te_node : AvDecision → AvtabNode → AvDecision
te_node avd node =
    if node.key.specified == av_allowed
    then record avd { allowed = bit_or avd.allowed node.datum.data_bits }
    else if node.key.specified == av_auditallow
    then record avd { auditallow = bit_or avd.auditallow node.datum.data_bits }
    else if node.key.specified == av_auditdeny
    then record avd { auditdeny = bit_and avd.auditdeny node.datum.data_bits }
    else avd

-- the body of the loop of `cond_compute_av`
unfoldable pub cond_node : AvDecision → AvtabNode → AvDecision
unfolding is_enabled
cond_node avd node = record {
  allowed =
      if is_enabled av_allowed node then bit_or avd.allowed node.datum.data_bits else avd.allowed;
  decided = avd.decided;
  auditallow =
      if is_enabled av_auditallow node
      then bit_or avd.auditallow node.datum.data_bits
      else avd.auditallow;
  auditdeny =
      if is_enabled av_auditdeny node
      then bit_and avd.auditdeny node.datum.data_bits
      else avd.auditdeny;
  seqno = avd.seqno;
}

pub cond_compute_av : Avtab → Key → AvDecision → AvDecision
unfolding cond_node
cond_compute_av ctab key avd = for_nodes cond_node ctab key avd

-- the types of a key are uint16_t
unfoldable pub av_key : ℕ → ℕ → ℕ → Key
av_key tclass i j = record {
  source_type = (i + 1) % 2 ^ 16;
  target_type = (j + 1) % 2 ^ 16;
  target_class = tclass;
  specified = av_rules;
}

-- the body of the inner loop over the attributes
pub pair_rules : Policy → ℕ → ℕ → ℕ → AvDecision → AvDecision
unfolding te_node cond_compute_av av_key
pair_rules pol tclass i j avd =
    cond_compute_av pol.te_cond_avtab (av_key tclass i j)
      (for_nodes te_node pol.te_avtab (av_key tclass i j) avd)

pub inner_loop : Policy → ℕ → ℕ → List ℕ → AvDecision → AvDecision
unfolding pair_rules
inner_loop pol tclass i [] avd = avd
inner_loop pol tclass i (j ∷ js) avd = inner_loop pol tclass i js (pair_rules pol tclass i j avd)

pub outer_loop : Policy → ℕ → List ℕ → List ℕ → AvDecision → AvDecision
unfolding inner_loop
outer_loop pol tclass [] js avd = avd
outer_loop pol tclass (i ∷ is) js avd = outer_loop pol tclass is js (inner_loop pol tclass i js avd)

-- all bits of an attribute set, with a round for each bit below the high bit and one that ends the loop
unfoldable pub attribute_bits : Ebitmap → Option (List ℕ)
attribute_bits e = for_each_positive_bit (suc e.highbit) e

-- the default values, of which `seqno` is `latest_granting`
unfoldable pub defaults : ℕ → AvDecision
defaults seqno = record {
  allowed = 0;
  decided = 0xffffffff;
  auditallow = 0;
  auditdeny = 0xffffffff;
  seqno = seqno;
}

-- the defaults, with the rules of both tables
pub type_rules : Policy → ℕ → Context → Context → Option AvDecision
unfolding outer_loop attribute_bits defaults
type_rules pol tclass scontext tcontext = elim (attribute_bits (pol.type_attr_map scontext.type)) [
  | none ↦ none
  | some is ↦ elim (attribute_bits (pol.type_attr_map tcontext.type)) [
    | none ↦ none
    | some js ↦ some (outer_loop pol tclass is js (defaults pol.latest_granting))
  ]
]
