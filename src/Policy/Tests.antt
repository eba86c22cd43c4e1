-- ===== src/Policy/Tests.antt =====
-- A policy with one device and two tools, and what it decides.
use jetkvm_cli.Base.{◌≡◌, refl, true, false, some, List, [], ◌∷◌, All}
use jetkvm_cli.Domain.{observe, power}
use jetkvm_cli.Inventory.{
  ToolDefinition, bounded_read, never_after_send, receipt_observation, receipt_operation, get_tool,
  is_valid_tool, collect_tools, new_catalog, IsConsistent, NamesDistinct, new_catalog-IsConsistent,
}
use jetkvm_cli.Policy.{
  Scope, Evaluation, DevicePolicy, Compiled, allowed, selected, in_ceiling, in_scope, find_device,
  evaluate_device, evaluate_tool, evaluate, tools,
}
use jetkvm_cli.Policy.Decisions.{IsSelected, ceiling, HasAuthority, evaluate-HasAuthority}
use jetkvm_cli.Policy.Discovery.{evaluate-tools}

abbrev power_tool : ToolDefinition
power_tool = record {
  name = "jetkvm_power_action";
  toolset = "power";
  effect = power;
  read_only = false;
  destructive = true;
  idempotent = false;
  open_world = false;
  device_scoped = true;
  capability = "atx";
  input_schema = "power_action_input";
  output_schema = "operation_receipt_output";
  retry = never_after_send;
  receipt = receipt_operation;
}

abbrev list_tool : ToolDefinition
list_tool = record power_tool {
  name = "jetkvm_list_devices";
  toolset = "observe";
  effect = observe;
  read_only = true;
  destructive = false;
  device_scoped = false;
  capability = "";
  retry = bounded_read;
  receipt = receipt_observation;
}

abbrev catalog : List ToolDefinition
catalog = list_tool ∷ power_tool ∷ []

catalog_made : new_catalog (power_tool ∷ list_tool ∷ []) ≡ some catalog
unfolding new_catalog collect_tools is_valid_tool get_tool
catalog_made = refl

new_catalog-IsConsistent_example : All IsConsistent catalog × NamesDistinct catalog
new_catalog-IsConsistent_example =
    new_catalog-IsConsistent (power_tool ∷ list_tool ∷ []) catalog catalog_made

abbrev everything : Scope
everything = record { toolsets_allow = []; toolsets_deny = []; tools_allow = []; tools_deny = [] }

abbrev desk : DevicePolicy
desk = record {
  alias = "desk";
  device_id = "kvm-1";
  permissions = "observe" ∷ "power" ∷ [];
  takeover_allowed = false;
  takeover_requires_confirmation = true;
}

abbrev compiled : Compiled
compiled = record {
  catalog = catalog;
  toolsets_allow = "power" ∷ [];
  toolsets_deny = [];
  tools_allow = [];
  tools_deny = "jetkvm_wake" ∷ [];
  devices = desk ∷ [];
}

abbrev press : Evaluation
press = record {
  tool_name = "jetkvm_power_action";
  device_id = "kvm-1";
  scope = everything;
  capabilities = "atx" ∷ [];
  check_capabilities = true;
}

press_allowed : evaluate compiled press ≡ allowed power_tool (some desk)
unfolding evaluate evaluate_tool evaluate_device in_ceiling in_scope selected get_tool find_device
press_allowed = refl

evaluate-HasAuthority_example :
    (get_tool catalog "jetkvm_power_action" ≡ some power_tool)
    × IsSelected "power" "jetkvm_power_action" (ceiling compiled)
    × IsSelected "power" "jetkvm_power_action" everything
    × HasAuthority compiled press power_tool (some desk)
evaluate-HasAuthority_example =
    evaluate-HasAuthority compiled press power_tool (some desk) press_allowed

evaluate-tools_example :
    (get_tool (tools compiled everything "kvm-1") "jetkvm_power_action" ≡ some power_tool)
    × (get_tool (tools compiled everything "") "jetkvm_power_action" ≡ some power_tool)
evaluate-tools_example = evaluate-tools compiled press power_tool (some desk) press_allowed
