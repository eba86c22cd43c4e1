-- ===== src/Policy/CompileTests.antt =====
-- A configuration compiled to a policy, and a decision of it.
use jetkvm_cli.Base.{◌≡◌, refl, true, false, some, none, [], ◌∷◌, contains, ok}
use jetkvm_cli.Base.Int.{pos}
use jetkvm_cli.Domain.{power}
use jetkvm_cli.Inventory.{ToolDefinition, never_after_send, receipt_operation, get_tool}
use jetkvm_cli.Input.Keys.{is_space}
use jetkvm_cli.Config.{
  DeviceConfig, Config, Platform, value_errors, validate_selection, validate_transport,
  validate_output, is_valid_origin, validate_credentials, validate_tls, validate_session,
  validate_retention, validate_device, validate_devices, validate_config,
}
use jetkvm_cli.Policy.{
  Evaluation, allowed, selected, in_ceiling, in_scope, find_device, evaluate_device, evaluate_tool,
  evaluate,
}
use jetkvm_cli.Policy.Decisions.{IsSelected}
use jetkvm_cli.Policy.Compile.{
  Listed, policy_of, unlisted_tools, collect_devices, compiled_of, compile, compile-evaluate,
  configured,
}

abbrev power_tool : ToolDefinition
power_tool = record {
  name = "jetkvm_power_action";
  toolset = "power";
  effect = power;
  read_only = false;
  destructive = true;
  idempotent = false;
  open_world = false;
  device_scoped = true;
  capability = "atx";
  input_schema = "power_action_input";
  output_schema = "operation_receipt_output";
  retry = never_after_send;
  receipt = receipt_operation;
}

abbrev platform : Platform
platform = record {
  parse_origin = λ s. some record {
    scheme = "https";
    host = "kvm.lan";
    has_user = false;
    raw_query = "";
    fragment = "";
    path = "";
  };
  is_loopback = λ s. false;
  is_abs = λ s. true;
}

abbrev den : DeviceConfig
den = record {
  device_id = "d1";
  origin = "https://kvm.lan";
  exposed = true;
  allow_plain_http = false;
  labels = [];
  credentials = record { provider = "no_password"; service = ""; account = ""; variable = "" };
  tls = record { mode = "system"; spki_sha256 = "" };
  permissions = "observe" ∷ "power" ∷ [];
  takeover = record { allowed = true; require_confirmation = true };
  session = record { idle_timeout = pos 5; absolute_lifetime = pos 30 };
}

abbrev deployment : Config
deployment = record {
  version = 1;
  transport = record { kind = "stdio"; listen = none };
  output = "auto";
  confirmation_required = false;
  state_path = "/state";
  toolsets = record { allow = "power" ∷ []; deny = [] };
  tools = record { allow = []; deny = [] };
  devices = ("den", den) ∷ [];
  retention = record {
    operation_receipts = pos 1;
    security_audit = pos 1;
    observation_metadata = pos 1;
    screenshots = pos 0;
  };
}

abbrev press : Evaluation
press = record {
  tool_name = "jetkvm_power_action";
  device_id = "d1";
  scope = record { toolsets_allow = []; toolsets_deny = []; tools_allow = []; tools_deny = [] };
  capabilities = [];
  check_capabilities = false;
}

compiled_lem :
    compile platform deployment (power_tool ∷ []) ≡ ok (compiled_of deployment (power_tool ∷ []))
unfolding compile unlisted_tools collect_devices get_tool find_device validate_config
    validate_transport validate_output validate_selection value_errors validate_devices
    validate_device validate_credentials validate_tls validate_session validate_retention
    is_valid_origin is_space
compiled_lem = refl

press_allowed :
    evaluate (compiled_of deployment (power_tool ∷ [])) press
    ≡ allowed power_tool (some (policy_of "den" den))
unfolding evaluate evaluate_tool evaluate_device in_ceiling in_scope selected collect_devices
    get_tool find_device
press_allowed = refl

compile-evaluate_example :
    (f : DeviceConfig) × Listed "den" f deployment.devices
    × (f.exposed ≡ true)
    × (f.device_id ≡ "d1")
    × (contains f.permissions "power" ≡ true)
    × IsSelected "power" "jetkvm_power_action" (configured deployment)
compile-evaluate_example =
    compile-evaluate platform deployment (power_tool ∷ [])
      (compiled_of deployment (power_tool ∷ [])) press power_tool (policy_of "den" den) compiled_lem
      press_allowed
