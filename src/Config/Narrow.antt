-- ===== src/Config/Narrow.antt =====
-- internal/config/narrow.go: a configuration narrowed by the constraints of one process.
use jetkvm_cli.Base.{
  String, Bool, false, not, ◌&&◌, ◌||◌, Option, none, some, List, [], ◌∷◌, ◌++◌, if◌then◌else◌,
  str_eq, contains, is_empty, Result, ok, err,
}
use jetkvm_cli.Config.{
  ConfigError, exceeds_ceiling, exceeds_exposure, unknown_device, error_if, Selection, DeviceConfig,
  Devices, Config, Platform, validate_config,
}

-- `output` is none where the process does not say; `device_permissions` is a map by alias.
pub record ProcessConstraints : Type 0 where
  pub output : Option String
  pub toolsets_allow : List String
  pub toolsets_deny : List String
  pub tools_allow : List String
  pub tools_deny : List String
  pub devices_allow : List String
  pub devices_deny : List String
  pub device_permissions : List (String × List String)
  pub disable_takeover : List String

abbrev pub exceeds : Selection → String → Bool
exceeds base v = (not (is_empty base.allow) && not (contains base.allow v)) || contains base.deny v

unfoldable pub allow_errors : Selection → List String → List ConfigError
allow_errors base [] = []
allow_errors base (v ∷ vs) = error_if (exceeds base v) exceeds_ceiling ++ allow_errors base vs

unfoldable pub add_denied : List String → List String → List String
add_denied denied [] = denied
add_denied denied (v ∷ vs) =
    let kept = add_denied denied vs in
    let added = add_denied (denied ++ (v ∷ [])) vs in if contains denied v then kept else added

-- narrowSelection
unfoldable pub narrow_selection :
    Selection → List String → List String → Selection × List ConfigError
narrow_selection base allow deny = (
  record { allow = if is_empty allow then base.allow else allow; deny = add_denied base.deny deny },
  allow_errors base allow,
)

unfoldable pub find_config : String → Devices → Option DeviceConfig
find_config alias [] = none
find_config alias ((a, d) ∷ ds) =
    let rest = find_config alias ds in if str_eq a alias then some d else rest

-- devices[alias] = device, for an alias that is there.
unfoldable pub set_config : String → DeviceConfig → Devices → Devices
set_config alias new [] = []
set_config alias new ((a, d) ∷ ds) =
    let rest = set_config alias new ds in if str_eq a alias then (a, new) ∷ ds else (a, d) ∷ rest

abbrev pub hidden : DeviceConfig → DeviceConfig
hidden d = record d { exposed = false }

abbrev pub is_exposed : Option DeviceConfig → Bool
is_exposed none = false
is_exposed (some d) = d.exposed

-- The aliases that may be allowed, and the errors of the others.
unfoldable pub allowed_devices : Devices → List String → List String × List ConfigError
allowed_devices ds [] = ([], [])
allowed_devices ds (a ∷ wanted) =
    let (allowed, errors) = allowed_devices ds wanted in
    if is_exposed (find_config a ds)
    then (a ∷ allowed, errors)
    else (allowed, exceeds_exposure ∷ errors)

unfoldable pub hide_others : List String → Devices → Devices
hide_others allowed [] = []
hide_others allowed ((a, d) ∷ ds) =
    (a, if contains allowed a then d else hidden d) ∷ hide_others allowed ds

unfoldable pub allow_devices : List String → Devices → Devices × List ConfigError
allow_devices wanted ds =
    if is_empty wanted
    then (ds, [])
    else (hide_others (allowed_devices ds wanted).0 ds, (allowed_devices ds wanted).1)

-- A loop over aliases, each of which changes its device and may find errors in it.
unfoldable pub change_devices {ℓ} :
    {A : Type ℓ}
    → (A → String)
    → (A → DeviceConfig → DeviceConfig × List ConfigError)
    → List A
    → Devices
    → Devices × List ConfigError
change_devices alias change [] ds = (ds, [])
change_devices alias change (x ∷ xs) ds = elim (find_config (alias x) ds) [
  | none ↦ let rest = change_devices alias change xs ds in (rest.0, unknown_device ∷ rest.1)
  | some d ↦
      let rest = change_devices alias change xs (set_config (alias x) (change x d).0 ds) in
      (rest.0, (change x d).1 ++ rest.1)
]

abbrev pub hide : String → DeviceConfig → DeviceConfig × List ConfigError
hide alias d = (hidden d, [])

unfoldable pub permission_errors : List String → List String → List ConfigError
permission_errors have [] = []
permission_errors have (p ∷ ps) =
    error_if (not (contains have p)) exceeds_ceiling ++ permission_errors have ps

abbrev pub set_permissions : String × List String → DeviceConfig → DeviceConfig × List ConfigError
set_permissions (alias, ps) d = (record d { permissions = ps }, permission_errors d.permissions ps)

abbrev pub without_takeover : DeviceConfig → DeviceConfig
without_takeover d = record d {
  takeover = record { allowed = false; require_confirmation = d.takeover.require_confirmation };
}

abbrev pub disable_takeover_of : String → DeviceConfig → DeviceConfig × List ConfigError
disable_takeover_of alias d = (without_takeover d, [])

-- The four loops over the devices.
unfoldable pub narrow_devices : ProcessConstraints → Devices → Devices × List ConfigError
unfolding allow_devices change_devices
narrow_devices k ds =
    let one = allow_devices k.devices_allow ds in
    let two = change_devices (λ a. a) hide k.devices_deny one.0 in
    let three = change_devices (λ x. x.0) set_permissions k.device_permissions two.0 in
    let four = change_devices (λ a. a) disable_takeover_of k.disable_takeover three.0 in
    (four.0, one.1 ++ (two.1 ++ (three.1 ++ four.1)))

abbrev pub or_else : Option String → String → String
or_else none s = s
or_else (some t) s = t

unfoldable pub narrowed_config : Config → ProcessConstraints → Config
unfolding narrow_selection narrow_devices
narrowed_config c k = record c {
  output = or_else k.output c.output;
  toolsets = (narrow_selection c.toolsets k.toolsets_allow k.toolsets_deny).0;
  tools = (narrow_selection c.tools k.tools_allow k.tools_deny).0;
  devices = (narrow_devices k c.devices).0;
}

unfoldable pub narrow_errors : Config → ProcessConstraints → List ConfigError
unfolding narrow_selection narrow_devices
narrow_errors c k =
    (narrow_selection c.toolsets k.toolsets_allow k.toolsets_deny).1
    ++ ((narrow_selection c.tools k.tools_allow k.tools_deny).1 ++ (narrow_devices k c.devices).1)

-- if err := errors.Join(errs...); err != nil { return err }
abbrev pub unless_errors {ℓ} :
    {A : Type ℓ} → List ConfigError → Result (List ConfigError) A → Result (List ConfigError) A
unless_errors [] rest = rest
unless_errors (e ∷ es) rest = err (e ∷ es)

unfoldable pub narrow : Platform → Config → ProcessConstraints → Result (List ConfigError) Config
unfolding narrowed_config narrow_errors
narrow p c k =
    unless_errors (narrow_errors c k)
      (unless_errors (validate_config p (narrowed_config c k)) (ok (narrowed_config c k)))
