-- ===== src/Policy/Compile.antt =====
-- Compile of internal/policy/policy.go: the policy of a configuration over the static inventory. The
-- revision, a hash of what is compiled, is left out.
use jetkvm_cli.Base.{
  ◌≡◌, inl, inr, refl, sym, subst, ap, ◌∙◌, String, Bool, true, false, not, Option, none, some,
  List, [], ◌∷◌, ◌++◌, map, arith, All, if◌then◌else◌, str_eq, eq_iff, contains, Result, ok, err,
  ok_injective, Bool-cases,
}
use jetkvm_cli.Inventory.{ToolDefinition, get_tool}
use jetkvm_cli.Config.{ConfigError, DeviceConfig, Devices, Config, Platform, validate_config}
use jetkvm_cli.Policy.{Evaluation, Scope, DevicePolicy, Compiled, allowed, find_device, evaluate}
use jetkvm_cli.Policy.Decisions.{IsSelected, evaluate-HasAuthority}

pub data CompileError : Type 0 where
  invalid : ConfigError → CompileError
  unlisted_tool duplicate_device : CompileError

abbrev is_listed : Option ToolDefinition → Bool
is_listed none = false
is_listed (some t) = true

unfoldable pub unlisted_tools : List ToolDefinition → List String → List CompileError
unlisted_tools catalog [] = []
unlisted_tools catalog (name ∷ names) =
    let rest = unlisted_tools catalog names in
    if is_listed (get_tool catalog name) then rest else unlisted_tool ∷ rest

abbrev pub policy_of : String → DeviceConfig → DevicePolicy
policy_of alias d = record {
  alias = alias;
  device_id = d.device_id;
  permissions = d.permissions;
  takeover_allowed = d.takeover.allowed;
  takeover_requires_confirmation = d.takeover.require_confirmation;
}

abbrev is_known : Option DevicePolicy → Bool
is_known none = false
is_known (some d) = true

-- The loop over the devices, after those of `compiled`.
unfoldable pub collect_devices : Devices → List DevicePolicy → List DevicePolicy × List CompileError
collect_devices [] compiled = (compiled, [])
collect_devices ((alias, d) ∷ rest) compiled =
    let skipped = collect_devices rest compiled in
    let added = collect_devices rest (policy_of alias d ∷ compiled) in
    if not d.exposed
    then skipped
    else if is_known (find_device compiled d.device_id)
    then (skipped.0, duplicate_device ∷ skipped.1)
    else added

abbrev pub compiled_of : Config → List ToolDefinition → Compiled
compiled_of c catalog = record {
  catalog = catalog;
  toolsets_allow = c.toolsets.allow;
  toolsets_deny = c.toolsets.deny;
  tools_allow = c.tools.allow;
  tools_deny = c.tools.deny;
  devices = (collect_devices c.devices []).0;
}

abbrev unless_any :
    List CompileError → Result (List CompileError) Compiled → Result (List CompileError) Compiled
unless_any [] rest = rest
unless_any (e ∷ es) rest = err (e ∷ es)

unfoldable pub compile :
    Platform → Config → List ToolDefinition → Result (List CompileError) Compiled
unfolding unlisted_tools collect_devices
compile p c catalog = unless_any (map invalid (validate_config p c)) (
    unless_any
      (unlisted_tools catalog (c.tools.allow ++ c.tools.deny) ++ (collect_devices c.devices []).1)
      (ok (compiled_of c catalog)))

unless_any-ok :
    (es : List CompileError) (rest : Result (List CompileError) Compiled) (k : Compiled)
    → unless_any es rest ≡ ok k
    → (es ≡ []) × (rest ≡ ok k)
unless_any-ok [] rest k e = (refl, e)
unless_any-ok (x ∷ es) rest k e = absurd (ground arith)

compile-ok :
    (p : Platform) (c : Config) (catalog : List ToolDefinition) (k : Compiled)
    → compile p c catalog ≡ ok k
    → k ≡ compiled_of c catalog
unfolding compile
compile-ok p c catalog k e =
    let found =
      unlisted_tools catalog (c.tools.allow ++ c.tools.deny) ++ (collect_devices c.devices []).1 in
    let (valid, rest) =
      unless_any-ok (map invalid (validate_config p c))
        (unless_any found (ok (compiled_of c catalog))) k e in
    let (clean, same) = unless_any-ok found (ok (compiled_of c catalog)) k rest in
    ok_injective k (compiled_of c catalog) same refl

-- A device stands in the configuration under an alias.
pub data Listed (alias : String) (d : DeviceConfig) : Devices → Type 0 where
  here : (ds : Devices) → Listed alias d ((alias, d) ∷ ds)
  there : (x : String × DeviceConfig) (ds : Devices) → Listed alias d ds → Listed alias d (x ∷ ds)

-- A compiled device is that of an exposed device of the configuration.
abbrev IsFrom : Devices → DevicePolicy → Type 0
IsFrom ds d =
    (e : DeviceConfig) × Listed d.alias e ds × (e.exposed ≡ true) × (d ≡ policy_of d.alias e)

collect_devices-IsFrom :
    (all ds : Devices) (compiled : List DevicePolicy)
    → ((alias : String) (d : DeviceConfig) → Listed alias d ds → Listed alias d all)
    → All (IsFrom all) compiled
    → All (IsFrom all) (collect_devices ds compiled).0
unfolding collect_devices
collect_devices-IsFrom all [] compiled within h = h
collect_devices-IsFrom all ((alias, d) ∷ ds) compiled within h =
    let later : (a : String) (e : DeviceConfig) → Listed a e ds → Listed a e all =
      λ a e l. within a e (there (alias, d) ds l) in
    let skipped = collect_devices-IsFrom all ds compiled later h in
    elim (Bool-cases d.exposed) [
      | inr closed ↦ rw (closed, collect_devices) skipped
      | inl exposed ↦ elim (Bool-cases (is_known (find_device compiled d.device_id))) [
        | inl twice ↦ rw (exposed, twice, collect_devices) skipped
        | inr new ↦
            rw (exposed, new, collect_devices)
              (collect_devices-IsFrom all ds (policy_of alias d ∷ compiled) later
                ((d, within alias d (here ds), exposed, refl), h))
      ]
    ]

find_device-IsFrom :
    (all : Devices) (ds : List DevicePolicy) (id : String) (d : DevicePolicy)
    → All (IsFrom all) ds
    → find_device ds id ≡ some d
    → IsFrom all d × (d.device_id ≡ id)
unfolding find_device
find_device-IsFrom all [] id d h e = absurd (ground arith)
find_device-IsFrom all (x ∷ ds) id d (h, hs) e = elim (Bool-cases (str_eq x.device_id id)) [
  | inl found ↦
      let same : x ≡ d = ground arith in
      subst (λ y. IsFrom all y × (y.device_id ≡ id)) same (h, (eq_iff x.device_id id).0 found)
  | inr other ↦ find_device-IsFrom all ds id d hs (ground arith)
]

-- The selection that the configuration itself writes down.
abbrev pub configured : Config → Scope
configured c = record {
  toolsets_allow = c.toolsets.allow;
  toolsets_deny = c.toolsets.deny;
  tools_allow = c.tools.allow;
  tools_deny = c.tools.deny;
}

-- A policy that was compiled allows a tool on a device only when the configuration says so: the tool is
-- selected by the toolsets and tools that it allows and denies, and the device is one of its devices, exposed, of the device ID
-- that was asked for, and with the tool's toolset among its permissions.
pub compile-evaluate :
    (p : Platform) (c : Config) (catalog : List ToolDefinition) (k : Compiled) (e : Evaluation)
    (t : ToolDefinition) (d : DevicePolicy)
    → compile p c catalog ≡ ok k
    → evaluate k e ≡ allowed t (some d)
    → (f : DeviceConfig) × Listed d.alias f c.devices
      × (f.exposed ≡ true)
      × (f.device_id ≡ e.device_id)
      × (contains f.permissions t.toolset ≡ true)
      × IsSelected t.toolset t.name (configured c)
compile-evaluate p c catalog k e t d made allows =
    let m = compiled_of c catalog in
    let h : evaluate m e ≡ allowed t (some d) =
      subst (λ x. evaluate x e ≡ allowed t (some d)) (compile-ok p c catalog k made) allows in
    let (known, in_ceiling, in_scope, (found, permitted, capable)) =
      evaluate-HasAuthority m e t (some d) h in
    let all = collect_devices-IsFrom c.devices c.devices [] (λ a f l. l) tt in
    let ((f, listed, exposed, same), named) =
      find_device-IsFrom c.devices m.devices e.device_id d all found in
    (
      f,
      listed,
      exposed,
      sym (ap (λ x. x.device_id) same) ∙ named,
      subst (λ x. contains x.permissions t.toolset ≡ true) same permitted,
      in_ceiling,
    )
