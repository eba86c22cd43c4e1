-- ===== src/Config.antt =====
-- internal/config/config.go and validate.go: the deployment's configuration and its validation. What
-- url.Parse, net.SplitHostPort with net.ParseIP, and filepath.IsAbs answer is a parameter. The errors
-- that errors.Join collects are a list, in the order of the source but for that of its maps.
pub mod Narrow
pub mod Narrowing
pub mod Selections
mod Tests
use jetkvm_cli.Base.{
  ℕ, ◌≡◌, String, Bool, true, false, not, ◌&&◌, ◌||◌, Option, none, some, List, [], ◌∷◌, ◌++◌,
  if◌then◌else◌, leb, ◌==◌, str_eq, contains, length,
}
use jetkvm_cli.Base.Int.{ℤ, pos, leb_ℤ, ltb_ℤ}
use jetkvm_cli.Input.Keys.{is_space}
use jetkvm_cli.Input.Keys.Tables.{codes}

pub data ConfigError : Type 0 where
  bad_version bad_transport bad_output bad_state_path : ConfigError
  empty_value unknown_value duplicate_value : ConfigError
  empty_alias no_device_id bad_origin bad_credentials bad_tls bad_session bad_retention :
      ConfigError
  exceeds_ceiling exceeds_exposure unknown_device : ConfigError

pub record Selection : Type 0 where
  pub allow : List String
  pub deny : List String

-- `listen` is that of an HTTPConfig.
pub record TransportConfig : Type 0 where
  pub kind : String
  pub listen : Option String

pub record CredentialConfig : Type 0 where
  pub provider : String
  pub service : String
  pub account : String
  pub variable : String

pub record TlsConfig : Type 0 where
  pub mode : String
  pub spki_sha256 : String

pub record TakeoverConfig : Type 0 where
  pub allowed : Bool
  pub require_confirmation : Bool

pub record SessionConfig : Type 0 where
  pub idle_timeout : ℤ
  pub absolute_lifetime : ℤ

pub record RetentionConfig : Type 0 where
  pub operation_receipts : ℤ
  pub security_audit : ℤ
  pub observation_metadata : ℤ
  pub screenshots : ℤ

pub record DeviceConfig : Type 0 where
  pub device_id : String
  pub origin : String
  pub exposed : Bool
  pub allow_plain_http : Bool
  pub labels : List (String × String)
  pub credentials : CredentialConfig
  pub tls : TlsConfig
  pub permissions : List String
  pub takeover : TakeoverConfig
  pub session : SessionConfig

-- A map by alias.
abbrev pub Devices : Type 0
Devices = List (String × DeviceConfig)

-- `version` is a natural number; `output` is the default of an OutputConfig, `confirmation_required`
-- and `state_path` the fields of the configurations of these names.
pub record Config : Type 0 where
  pub version : ℕ
  pub transport : TransportConfig
  pub output : String
  pub confirmation_required : Bool
  pub state_path : String
  pub toolsets : Selection
  pub tools : Selection
  pub devices : Devices
  pub retention : RetentionConfig

-- The parts of a *url.URL that are looked at.
pub record Origin : Type 0 where
  pub scheme : String
  pub host : String
  pub has_user : Bool
  pub raw_query : String
  pub fragment : String
  pub path : String

-- What the packages net/url, net and path/filepath answer. `is_loopback` says that an address is
-- host:port with a numeric loopback host.
pub record Platform : Type 0 where
  pub parse_origin : String → Option Origin
  pub is_loopback : String → Bool
  pub is_abs : String → Bool

abbrev pub current_version : ℕ
current_version = 1

abbrev pub known_toolsets : List String
known_toolsets = "observe" ∷ "video" ∷ "input" ∷ "power" ∷ "media" ∷ "setup" ∷ []

abbrev pub known_device_permissions : List String
known_device_permissions = "observe" ∷ "video" ∷ "input" ∷ "power" ∷ "media" ∷ []

abbrev pub error_if : Bool → ConfigError → List ConfigError
error_if false e = []
error_if true e = e ∷ []

-- The values of one kind of a selection, after those of `seen`.
unfoldable pub value_errors : Option (List String) → List String → List String → List ConfigError
value_errors known seen [] = []
value_errors known seen (v ∷ vs) =
    let skipped = value_errors known seen vs in
    let rest = value_errors known (v ∷ seen) vs in
    if str_eq v ""
    then empty_value ∷ skipped
    else error_if (elim known [ none ↦ false | some names ↦ not (contains names v) ]) unknown_value
      ++ (error_if (contains seen v) duplicate_value ++ rest)

unfoldable pub validate_selection : Selection → Option (List String) → List ConfigError
validate_selection s known = value_errors known [] s.allow ++ value_errors known [] s.deny

unfoldable pub validate_transport : Platform → TransportConfig → List ConfigError
validate_transport p c =
    if str_eq c.kind "stdio"
    then elim c.listen [ none ↦ [] | some address ↦ bad_transport ∷ [] ]
    else if str_eq c.kind "streamable_http"
    then elim c.listen [
      | none ↦ bad_transport ∷ []
      | some address ↦ error_if (not (p.is_loopback address)) bad_transport
    ]
    else bad_transport ∷ []

unfoldable pub validate_output : String → List ConfigError
validate_output mode =
    error_if (not (str_eq mode "auto") && not (str_eq mode "json") && not (str_eq mode "text"))
      bad_output

unfoldable pub is_valid_origin : Origin → Bool → Bool
is_valid_origin o allow_plain_http =
    (str_eq o.scheme "http" || str_eq o.scheme "https")
    && not (str_eq o.host "")
    && not o.has_user
    && str_eq o.raw_query ""
    && str_eq o.fragment ""
    && (str_eq o.path "" || str_eq o.path "/")
    && (not (str_eq o.scheme "http") || allow_plain_http)

unfoldable pub validate_credentials : CredentialConfig → List ConfigError
validate_credentials c =
    if str_eq c.provider "keychain"
    then error_if (str_eq c.service "" || str_eq c.account "" || not (str_eq c.variable ""))
        bad_credentials
    else if str_eq c.provider "environment"
    then error_if (str_eq c.variable "" || not (str_eq c.service "") || not (str_eq c.account ""))
        bad_credentials
    else if str_eq c.provider "no_password"
    then error_if
        (not (str_eq c.service "") || not (str_eq c.account "") || not (str_eq c.variable ""))
        bad_credentials
    else bad_credentials ∷ []

abbrev pub is_hex_digit : ℕ → Bool
is_hex_digit c = (leb 48 c && leb c 57) || (leb 65 c && leb c 70) || (leb 97 c && leb c 102)

unfoldable pub all_codes : (ℕ → Bool) → List ℕ → Bool
all_codes test [] = true
all_codes test (c ∷ cs) = test c && all_codes test cs

-- hex.DecodeString succeeds with 32 bytes.
unfoldable pub is_sha256_text : String → Bool
unfolding codes all_codes
is_sha256_text s = (length (codes s) == 64) && all_codes is_hex_digit (codes s)

-- `origin` is none when it was not parsed.
unfoldable pub validate_tls : TlsConfig → Option Origin → List ConfigError
unfolding is_sha256_text
validate_tls c origin =
    if not (elim origin [ none ↦ false | some o ↦ str_eq o.scheme "https" ])
    then error_if (not (str_eq c.mode "") || not (str_eq c.spki_sha256 "")) bad_tls
    else if str_eq c.mode "system"
    then error_if (not (str_eq c.spki_sha256 "")) bad_tls
    else if str_eq c.mode "pinned"
    then error_if (str_eq c.spki_sha256 "" || not (is_sha256_text c.spki_sha256)) bad_tls
    else bad_tls ∷ []

unfoldable pub validate_session : SessionConfig → List ConfigError
validate_session c =
    error_if
      (leb_ℤ c.idle_timeout (pos 0)
        || leb_ℤ c.absolute_lifetime (pos 0)
        || ltb_ℤ c.absolute_lifetime c.idle_timeout)
      bad_session

unfoldable pub validate_retention : RetentionConfig → List ConfigError
validate_retention c =
    error_if (ltb_ℤ c.operation_receipts (pos 0)) bad_retention
    ++ (error_if (ltb_ℤ c.security_audit (pos 0)) bad_retention
        ++ (error_if (ltb_ℤ c.observation_metadata (pos 0)) bad_retention
            ++ error_if (ltb_ℤ c.screenshots (pos 0)) bad_retention))

-- strings.TrimSpace(alias) == ""
abbrev pub is_blank : String → Bool
is_blank s = all_codes is_space (codes s)

unfoldable pub validate_device : Platform → String → DeviceConfig → List ConfigError
unfolding all_codes codes
validate_device p alias d =
    let origin = p.parse_origin d.origin in
    error_if (is_blank alias) empty_alias
    ++ (error_if (str_eq d.device_id "") no_device_id
        ++ (error_if
              (not (elim origin [ none ↦ false | some o ↦ is_valid_origin o d.allow_plain_http ]))
              bad_origin
            ++ (validate_selection (record { allow = d.permissions; deny = [] })
                  (some known_device_permissions)
                ++ (validate_credentials d.credentials
                    ++ (validate_tls d.tls origin ++ validate_session d.session)))))

unfoldable pub validate_devices : Platform → Devices → List ConfigError
validate_devices p [] = []
validate_devices p ((alias, d) ∷ rest) = validate_device p alias d ++ validate_devices p rest

unfoldable pub validate_config : Platform → Config → List ConfigError
validate_config p c =
    error_if (not (c.version == current_version)) bad_version
    ++ (validate_transport p c.transport
        ++ (validate_output c.output
            ++ (error_if (str_eq c.state_path "" || not (p.is_abs c.state_path)) bad_state_path
                ++ (validate_selection c.toolsets (some known_toolsets)
                    ++ (validate_selection c.tools none
                        ++ (validate_devices p c.devices ++ validate_retention c.retention))))))
