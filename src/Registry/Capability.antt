-- ===== src/Registry/Capability.antt =====
-- backend/src/awf/registry/capability_record.py, with the enumerations of
-- backend/src/awf/registry/schemas/capability_records.py.
use jarvis_awf.Prelude.{
  String, ◌<>◌, Bool, true, false, not, ◌&&◌, ◌||◌, Option, some, List, [], ◌∷◌, ◌==◌,
  if◌then◌else◌, select, member,
}
use jarvis_awf.Prelude.Int.{ℤ, pos, ltb_ℤ}
use jarvis_awf.Json.{Value, num, arr, cons, Dict, get, contains, get_or, get_truthy}
use jarvis_awf.Json.Convert.{int_of, dict_of}
use jarvis_awf.Database.{RiskClass, r0}
use jarvis_awf.Exec.{Result, ok, err, plain, capability_validation_error}

pub data IdentityType : Type 0 where
  mcp_tool activity cli_adapter_action : IdentityType

pub data Operation : Type 0 where
  read create update delete execute communicate : Operation

pub data ApprovalMode : Type 0 where
  never per_run per_invocation : ApprovalMode

pub record Identity : Type 0 where
  pub type : IdentityType
  pub provider : String
  pub name : String
  pub version : String

pub record Effects : Type 0 where
  pub operation : Operation
  pub reversible : Bool
  pub idempotent : Bool
  pub external_side_effect : Bool

pub record CapabilityRecord : Type 0 where
  pub identity : Identity
  pub schema_input : String
  pub schema_output : String
  pub effects : Effects
  pub risk_class : RiskClass
  pub approval : ApprovalMode
  pub constraints : Dict

-- CapabilityRecord.ref
abbrev pub ref : CapabilityRecord → String
ref c = c.identity.name <> ("@" <> c.identity.version)

abbrev pub machine_names : List String
machine_names = "fs_read" ∷ "fs_write" ∷ "fs_delete" ∷ "command_run" ∷ "network_fetch" ∷ []

abbrev is_activity : IdentityType → Bool
is_activity activity = true
is_activity _ = false

abbrev is_read : Operation → Bool
is_read read = true
is_read _ = false

abbrev is_r0 : RiskClass → Bool
is_r0 r0 = true
is_r0 _ = false

-- the name begins with "fs_": of the machine names, these three
abbrev pub is_fs : String → Bool
is_fs name = member name ("fs_read" ∷ "fs_write" ∷ "fs_delete" ∷ [])

abbrev invalid : String → Result (Unit {0})
invalid text = err (plain capability_validation_error text)

abbrev is_filled_list : Option Value → Bool
is_filled_list (some (arr (cons v vs))) = true
is_filled_list _ = false

abbrev bind : Result (Unit {0}) → Result (Unit {0}) → Result (Unit {0})
bind (ok u) r = r
bind (err e) r = err e

abbrev check : Bool → String → Result (Unit {0})
check true text = invalid text
check false text = ok tt

-- the checks on a network family
check_network : Value → Result (Unit {0})
check_network v = elim (dict_of v) [
  | err e ↦ err e
  | ok d ↦
      bind
        (check (not (get_truthy "allowedMethods" d)) "network constraints require allowedMethods")
        (check (not (is_filled_list (get "allowedHosts" d)))
          "network constraints require non-empty allowedHosts")
]

check_positive : Result ℤ → Result (Unit {0})
check_positive (err e) = err e
check_positive (ok z) =
    check (ltb_ℤ z (pos 1)) "command constraints require positive timeoutSeconds"

-- the check on a command family
check_command : Value → Result (Unit {0})
unfolding check_positive
check_command v = elim (dict_of v) [
  | err e ↦ err e
  | ok d ↦ check_positive (int_of (get_or "timeoutSeconds" (num (pos 0)) d))
]

-- `constraints[family]`, for a family that is there
abbrev value_at : String → Dict → Value
value_at family d = get_or family Value.null d

abbrev family_names : List String
family_names = "filesystem" ∷ "command" ∷ "network" ∷ []

-- the tests once the one family is known
check_family : Identity → Effects → RiskClass → Dict → String → Result (Unit {0})
unfolding check_network check_command
check_family identity effects risk constraints family =
    bind
      (check (is_fs identity.name && not (family == "filesystem"))
        (identity.name <> ": requires filesystem constraints"))
      (bind
        (check (identity.name == "command_run" && not (family == "command"))
          "command_run: requires command constraints")
        (bind
          (check (identity.name == "network_fetch" && not (family == "network"))
            "network_fetch: requires network constraints")
          (bind
            (check (is_r0 risk && not (is_read effects.operation))
              "R0 machine capabilities must be read-only")
            (bind
              (if family == "network" then check_network (value_at family constraints) else ok tt)
              (if family == "command"
                then check_command (value_at family constraints)
                else ok tt)))))

one_family : Identity → Effects → RiskClass → Dict → List String → Result (Unit {0})
unfolding check_family
one_family identity effects risk constraints (family ∷ []) =
    check_family identity effects risk constraints family
one_family identity effects risk constraints _ =
    invalid (identity.name <> ": exactly one machine constraint family is required")

-- _validate_constraints
pub validate_constraints : Identity → Effects → RiskClass → Dict → Result (Unit {0})
unfolding one_family
validate_constraints identity effects risk constraints =
    if not (is_activity identity.type) || not (member identity.name machine_names)
    then ok tt
    else one_family identity effects risk constraints
        (select (λ name. contains name constraints) family_names)
