-- ===== src/Security/Transition.antt =====
-- The contexts of new objects: `sepol_compute_sid` of libsepol/src/services.c.
pub mod Laws
mod Tests
use ap_policy.Common.{
  ℕ, ◌%◌, ◌^◌, ◌≡◌, Bool, true, false, Option, some, none, List, [], ◌∷◌, ltb, leb, ◌==◌,
  if◌then◌else◌, ◌&&◌, ◌||◌, not, bit_and,
}
use ap_policy.Common.Results.{Result, ok, err, einval, eacces}
use ap_policy.Avtab.{Key, Datum, AvtabNode, Avtab, enabled_bit, search}
use ap_policy.Avtab.Walk.{for_nodes}
use ap_policy.Ebitmap.{init}
use ap_policy.Mls.{Context, level, levels}
use ap_policy.Mls.Transition.{
  RuleKind, transition, change, member, other_kind, Policy as MlsPolicy,
  compute_sid as mls_compute_sid,
}
use ap_policy.Security.Validity.{object_r, context_is_valid, Policy as ValidityPolicy}
use ap_policy.Sidtab.{Sidtab, context_to_sid, search as sidtab_search}

-- `default_user`, `default_role` and `default_type` of a class
pub data Default : Type 0 where
  unset source target : Default

pub record ClassDatum : Type 0 where
  pub default_user : Default
  pub default_role : Default
  pub default_type : Default

pub record RoleTrans : Type 0 where
  pub role : ℕ
  pub type : ℕ
  pub tclass : ℕ
  pub new_role : ℕ

-- what the function reads of the policy, the parts that `mls_compute_sid` and `context_is_valid` read, and
-- `selinux_enforcing`
pub record Policy : Type 0 where
  pub nprim : ℕ
  pub class_val_to_struct : ℕ → ClassDatum
  pub process_class : ℕ
  pub te_avtab : Avtab
  pub te_cond_avtab : Avtab
  pub role_tr : List RoleTrans
  pub mls : MlsPolicy
  pub validity : ValidityPolicy
  pub enforcing : Bool

-- the defaults of a class; a class that the policy has not has none
pub class_of : Policy → ℕ → ClassDatum
class_of pol tclass =
    if ltb 0 tclass && leb tclass pol.nprim
    then pol.class_val_to_struct tclass
    else record { default_user = unset; default_role = unset; default_type = unset }

-- AVTAB_TRANSITION, AVTAB_MEMBER and AVTAB_CHANGE
pub kind_bit : RuleKind → ℕ
kind_bit transition = 0x10
kind_bit member = 0x20
kind_bit change = 0x40
kind_bit other_kind = 0

pub new_user : RuleKind → ClassDatum → Context → Context → ℕ
new_user member class s t = t.user
new_user transition class s t = elim class.default_user [
  | target ↦ t.user
  | source ↦ s.user
  | unset ↦ s.user
]
new_user change class s t = elim class.default_user [
  | target ↦ t.user
  | source ↦ s.user
  | unset ↦ s.user
]
new_user other_kind class s t = 0

pub default_role : Policy → ClassDatum → ℕ → Context → Context → ℕ
default_role pol class tclass s t = elim class.default_role [
  | source ↦ s.role
  | target ↦ t.role
  | unset ↦ if tclass == pol.process_class then s.role else object_r
]

pub default_type : Policy → ClassDatum → ℕ → Context → Context → ℕ
default_type pol class tclass s t = elim class.default_type [
  | source ↦ s.type
  | target ↦ t.type
  | unset ↦ if tclass == pol.process_class then s.type else t.type
]

-- the types of a key are uint16_t
pub type_key : ℕ → Context → Context → ℕ → Key
type_key specified s t tclass = record {
  source_type = s.type % 2 ^ 16;
  target_type = t.type % 2 ^ 16;
  target_class = tclass;
  specified = specified;
}

-- the body of the loop over the conditional rules; a rule that is found ends the search
pub first_enabled : Option Datum → AvtabNode → Option Datum
first_enabled (some d) node = some d
first_enabled none node =
    if not (bit_and node.key.specified enabled_bit == 0) then some node.datum else none

-- the rule for the type: `avdatum`
pub type_rule : Policy → Key → Option Datum
unfolding first_enabled
type_rule pol key = elim (search pol.te_avtab key) [
  | some d ↦ some d
  | none ↦ for_nodes first_enabled pol.te_cond_avtab key none
]

-- the loop over `role_tr`
pub role_rule : List RoleTrans → ℕ → ℕ → ℕ → ℕ → ℕ
role_rule [] role type tclass old = old
role_rule (r ∷ rs) role type tclass old =
    if r.role == role && (r.type == type && r.tclass == tclass)
    then r.new_role
    else role_rule rs role type tclass old

-- `newcontext` in front of its range
pub new_context : Policy → RuleKind → Context → Context → ℕ → Context
unfolding class_of kind_bit new_user default_role default_type type_key type_rule role_rule
new_context pol kind s t tclass =
    let class = class_of pol tclass in
    let role = default_role pol class tclass s t in
    record {
      user = new_user kind class s t;
      role = elim kind [ transition ↦ role_rule pol.role_tr s.role t.type tclass role | _ ↦ role ];
      type = elim (type_rule pol (type_key (kind_bit kind) s t tclass)) [
        | none ↦ default_type pol class tclass s t
        | some d ↦ d.data_bits
      ];
      range = levels (level 0 init) (level 0 init);
    }

-- the end of `sepol_compute_sid`, with `compute_sid_handle_invalid_context`: an invalid context is refused
-- with -EACCES where the policy is enforced
pub label : Policy → Sidtab → Context → Option (Sidtab × Result ℕ)
label pol sidtab new = elim (context_is_valid pol.validity new) [
  | none ↦ none
  | some valid ↦
      if not valid && pol.enforcing
      then some (sidtab, err eacces)
      else some (context_to_sid sidtab new)
]

-- `sepol_compute_sid`
pub compute_sid : Policy → Sidtab → ℕ → ℕ → ℕ → RuleKind → Option (Sidtab × Result ℕ)
unfolding new_context label
compute_sid pol sidtab ssid tsid tclass kind = elim (sidtab_search sidtab ssid) [
  | none ↦ some (sidtab, err einval)
  | some s ↦ elim (sidtab_search sidtab tsid) [
    | none ↦ some (sidtab, err einval)
    | some t ↦ elim (mls_compute_sid pol.mls s t tclass kind (new_context pol kind s t tclass)) [
      | err e ↦ some (sidtab, err e)
      | ok new ↦ label pol sidtab new
    ]
  ]
]
