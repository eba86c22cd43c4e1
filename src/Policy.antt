-- ===== src/Policy.antt =====
-- internal/policy/policy.go: the compiled policy and its decisions. A set of names is the list of
-- them, the map of capabilities the list of those that are true, and the map of devices, by their
-- device IDs, the list of its values; `c.revision` is the hash of the rest, which no decision reads.
pub mod Compile
pub mod Decisions
pub mod Discovery
mod Tests
mod CompileTests
use jetkvm_cli.Base.{
  ◌≡◌, String, Bool, true, false, not, ◌&&◌, ◌||◌, Option, none, some, List, [], ◌∷◌, is_empty,
  keep_if, any, contains, str_eq, if◌then◌else◌,
}
use jetkvm_cli.Inventory.{ToolDefinition, get_tool}

pub data DenialReason : Type 0 where
  unknown_tool deployment_ceiling request_scope device_required device_not_exposed device_permission
        capability_unavailable :
      DenialReason

pub record Scope : Type 0 where
  pub toolsets_allow : List String
  pub toolsets_deny : List String
  pub tools_allow : List String
  pub tools_deny : List String

pub record Evaluation : Type 0 where
  pub tool_name : String
  pub device_id : String
  pub scope : Scope
  pub capabilities : List String
  pub check_capabilities : Bool

pub record DevicePolicy : Type 0 where
  pub alias : String
  pub device_id : String
  pub permissions : List String
  pub takeover_allowed : Bool
  pub takeover_requires_confirmation : Bool

pub record Compiled : Type 0 where
  pub catalog : List ToolDefinition
  pub toolsets_allow : List String
  pub toolsets_deny : List String
  pub tools_allow : List String
  pub tools_deny : List String
  pub devices : List DevicePolicy

-- A decision: allowed, with the device it names, or denied with the reason.
pub data Decision : Type 0 where
  allowed : ToolDefinition → Option DevicePolicy → Decision
  denied : DenialReason → Decision

abbrev pub is_allowed : Decision → Bool
is_allowed (allowed t d) = true
is_allowed (denied r) = false

unfoldable pub selected :
    String → String → List String → List String → List String → List String → Bool
selected toolset tool toolsets_allow toolsets_deny tools_allow tools_deny =
    if contains toolsets_deny toolset
    then false
    else if contains tools_deny tool
    then false
    else if not (is_empty toolsets_allow) && not (contains toolsets_allow toolset)
    then false
    else if not (is_empty tools_allow) && not (contains tools_allow tool)
    then false
    else true

-- The deployment's own selection, and the one of a request.
unfoldable pub in_ceiling : Compiled → ToolDefinition → Bool
unfolding selected
in_ceiling c t =
    selected t.toolset t.name c.toolsets_allow c.toolsets_deny c.tools_allow c.tools_deny

unfoldable pub in_scope : Scope → ToolDefinition → Bool
unfolding selected
in_scope s t = selected t.toolset t.name s.toolsets_allow s.toolsets_deny s.tools_allow s.tools_deny

unfoldable pub find_device : List DevicePolicy → String → Option DevicePolicy
find_device [] id = none
find_device (d ∷ ds) id =
    let rest = find_device ds id in if str_eq d.device_id id then some d else rest

abbrev pub permits : ToolDefinition → DevicePolicy → Bool
permits t d = contains d.permissions t.toolset

abbrev pub lacks_capability : ToolDefinition → Evaluation → Bool
lacks_capability t e =
    e.check_capabilities
    && not (str_eq t.capability "")
    && not (contains e.capabilities t.capability)

-- The part of Evaluate for a tool that works on a device.
unfoldable pub evaluate_device : Compiled → ToolDefinition → Evaluation → Decision
evaluate_device c t e =
    if str_eq e.device_id ""
    then if any (permits t) c.devices then allowed t none else denied device_required
    else elim (find_device c.devices e.device_id) [
      | none ↦ denied device_not_exposed
      | some d ↦
          if not (permits t d)
          then denied device_permission
          else if lacks_capability t e
          then denied capability_unavailable
          else allowed t (some d)
    ]

unfoldable pub evaluate_tool : Compiled → ToolDefinition → Evaluation → Decision
evaluate_tool c t e =
    if not (in_ceiling c t)
    then denied deployment_ceiling
    else if not (in_scope e.scope t)
    then denied request_scope
    else if not t.device_scoped
    then allowed t none
    else evaluate_device c t e

unfoldable pub evaluate : Compiled → Evaluation → Decision
evaluate c e = elim (get_tool c.catalog e.tool_name) [
  | none ↦ denied unknown_tool
  | some t ↦ evaluate_tool c t e
]

-- What Tools asks of Evaluate for a tool of the catalogue.
abbrev pub listing : String → Scope → String → Evaluation
listing name scope device_id = record {
  tool_name = name;
  device_id = device_id;
  scope = scope;
  capabilities = [];
  check_capabilities = false;
}

unfoldable pub tools : Compiled → Scope → String → List ToolDefinition
tools c scope device_id =
    keep_if (λ t. is_allowed (evaluate c (listing t.name scope device_id))) c.catalog
