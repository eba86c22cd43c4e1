-- ===== src/Config/Tests.antt =====
-- A configuration validated and narrowed.
use jetkvm_cli.Base.{◌≡◌, refl, true, false, some, none, [], ◌∷◌, ok, err}
use jetkvm_cli.Base.Int.{pos}
use jetkvm_cli.Config.{
  exceeds_ceiling, duplicate_value, DeviceConfig, Config, Platform, value_errors,
  validate_selection, validate_transport, validate_output, is_valid_origin, validate_credentials,
  validate_tls, validate_session, validate_retention, validate_device, validate_devices,
  validate_config,
}
use jetkvm_cli.Input.Keys.{is_space}
use jetkvm_cli.Config.Narrow.{
  ProcessConstraints, allow_errors, add_denied, find_config, set_config, allowed_devices,
  hide_others, change_devices, permission_errors, narrowed_config, narrow_errors, narrow,
}
use jetkvm_cli.Config.Selections.{IsWithin, narrow-IsWithin}

abbrev platform : Platform
platform = record {
  parse_origin = λ s. some record {
    scheme = "https";
    host = "kvm.lan";
    has_user = false;
    raw_query = "";
    fragment = "";
    path = "";
  };
  is_loopback = λ s. false;
  is_abs = λ s. true;
}

abbrev den : DeviceConfig
den = record {
  device_id = "d1";
  origin = "https://kvm.lan";
  exposed = true;
  allow_plain_http = false;
  labels = [];
  credentials = record { provider = "no_password"; service = ""; account = ""; variable = "" };
  tls = record { mode = "system"; spki_sha256 = "" };
  permissions = "observe" ∷ "input" ∷ [];
  takeover = record { allowed = true; require_confirmation = true };
  session = record { idle_timeout = pos 5; absolute_lifetime = pos 30 };
}

abbrev deployment : Config
deployment = record {
  version = 1;
  transport = record { kind = "stdio"; listen = none };
  output = "auto";
  confirmation_required = false;
  state_path = "/state";
  toolsets = record { allow = "observe" ∷ "input" ∷ []; deny = [] };
  tools = record { allow = []; deny = "power_cycle" ∷ [] };
  devices = ("den", den) ∷ [];
  retention = record {
    operation_receipts = pos 1;
    security_audit = pos 1;
    observation_metadata = pos 1;
    screenshots = pos 0;
  };
}

abbrev constraints : ProcessConstraints
constraints = record {
  output = some "json";
  toolsets_allow = "observe" ∷ [];
  toolsets_deny = [];
  tools_allow = [];
  tools_deny = "type_text" ∷ [];
  devices_allow = "den" ∷ [];
  devices_deny = [];
  device_permissions = ("den", "observe" ∷ []) ∷ [];
  disable_takeover = "den" ∷ [];
}

narrowed_lem : narrow platform deployment constraints ≡ ok (narrowed_config deployment constraints)
unfolding narrow narrowed_config narrow_errors allow_errors add_denied find_config set_config
    allowed_devices hide_others change_devices permission_errors validate_config validate_transport
    validate_output validate_selection value_errors validate_devices validate_device
    validate_credentials validate_tls validate_session validate_retention is_valid_origin is_space
narrowed_lem = refl

narrow-IsWithin_example :
    IsWithin (narrowed_config deployment constraints) deployment
    × (validate_config platform (narrowed_config deployment constraints) ≡ [])
narrow-IsWithin_example =
    narrow-IsWithin platform deployment (narrowed_config deployment constraints) constraints
      narrowed_lem

repeated_value :
    validate_selection (record { allow = "a" ∷ "a" ∷ []; deny = [] }) none ≡ duplicate_value ∷ []
unfolding validate_selection value_errors
repeated_value = refl

wider_toolset :
    narrow platform deployment (record constraints { toolsets_allow = "power" ∷ [] })
    ≡ err (exceeds_ceiling ∷ [])
unfolding narrow narrow_errors allow_errors find_config set_config allowed_devices change_devices
    permission_errors hide_others
wider_toolset = refl
