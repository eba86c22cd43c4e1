-- ===== src/Config/Narrowing.antt =====
-- What a process may still do under a configuration that internal/config/narrow.go narrowed.
use jetkvm_cli.Base.{
  ◌≡◌, inl, inr, refl, sym, subst, ap, ◌∙◌, String, true, not, some, List, [], ◌∷◌, ◌++◌, arith,
  str_eq, eq_iff, contains, Bool-cases, Option-cases,
}
use jetkvm_cli.Config.{ConfigError, exceeds_ceiling, error_if, DeviceConfig, Devices}
use jetkvm_cli.Config.Narrow.{
  ProcessConstraints, find_config, set_config, hidden, allowed_devices, hide_others, allow_devices,
  change_devices, hide, permission_errors, set_permissions, without_takeover, disable_takeover_of,
  narrow_devices,
}

-- The device `e` with the exposure, the permissions and the takeover of `d`, and all else its own.
abbrev pub narrowed_as : DeviceConfig → DeviceConfig → DeviceConfig
narrowed_as e d = record e {
  exposed = d.exposed;
  permissions = d.permissions;
  takeover = record e.takeover { allowed = d.takeover.allowed };
}

-- A device of a narrowed configuration against that of the deployment.
pub record IsNarrower (d e : DeviceConfig) : Type 0 where
  pub exposed : d.exposed ≡ true → e.exposed ≡ true
  pub permissions : (p : String) → contains d.permissions p ≡ true → contains e.permissions p ≡ true
  pub takeover : d.takeover.allowed ≡ true → e.takeover.allowed ≡ true
  pub unchanged : d ≡ narrowed_as e d

IsNarrower-refl : (d : DeviceConfig) → IsNarrower d d
IsNarrower-refl d = record {
  exposed = λ h. h;
  permissions = λ p h. h;
  takeover = λ h. h;
  unchanged = refl;
}

IsNarrower-trans : {d e f : DeviceConfig} → IsNarrower d e → IsNarrower e f → IsNarrower d f
IsNarrower-trans {d} m n = record {
  exposed = λ h. n.exposed (m.exposed h);
  permissions = λ p h. n.permissions p (m.permissions p h);
  takeover = λ h. n.takeover (m.takeover h);
  unchanged = m.unchanged ∙ ap (λ x. narrowed_as x d) n.unchanged;
}

-- Every device of `ds` is one of `es`, and narrower than it.
pub AreNarrower : Devices → Devices → Type 0
AreNarrower ds es =
    (alias : String) (d : DeviceConfig)
    → find_config alias ds ≡ some d
    → (e : DeviceConfig) × (find_config alias es ≡ some e) × IsNarrower d e

AreNarrower-refl : (ds : Devices) → AreNarrower ds ds
unfolding AreNarrower
AreNarrower-refl ds alias d found = (d, found, IsNarrower-refl d)

AreNarrower-trans : (ds es fs : Devices) → AreNarrower ds es → AreNarrower es fs → AreNarrower ds fs
unfolding AreNarrower
AreNarrower-trans ds es fs m n alias d found =
    let (e, found', narrower) = m alias d found in
    let (f, found'', narrower') = n alias e found' in
    (f, found'', IsNarrower-trans narrower narrower')

hidden-IsNarrower : (d : DeviceConfig) → IsNarrower (hidden d) d
hidden-IsNarrower d = record {
  exposed = λ h. absurd (ground arith);
  permissions = λ p h. h;
  takeover = λ h. h;
  unchanged = refl;
}

without_takeover-IsNarrower : (d : DeviceConfig) → IsNarrower (without_takeover d) d
without_takeover-IsNarrower d = record {
  exposed = λ h. h;
  permissions = λ p h. h;
  takeover = λ h. absurd (ground arith);
  unchanged = refl;
}

pub append_nil : {A : Type 0} (xs ys : List A) → (xs ++ ys) ≡ [] → (xs ≡ []) × (ys ≡ [])
append_nil [] ys e = (refl, e)
append_nil (x ∷ xs) ys e = absurd (ground arith)

permission_errors-contains :
    (have ps : List String) (p : String)
    → permission_errors have ps ≡ []
    → contains ps p ≡ true
    → contains have p ≡ true
unfolding permission_errors
permission_errors-contains have [] p e h = absurd (ground arith)
permission_errors-contains have (q ∷ ps) p e h =
    let (first, rest) =
      append_nil (error_if (not (contains have q)) exceeds_ceiling) (permission_errors have ps) e in
    elim (Bool-cases (str_eq q p)) [
      | inl same ↦ subst (λ x. contains have x ≡ true) ((eq_iff q p).0 same) (ground arith)
      | inr other ↦ permission_errors-contains have ps p rest (ground arith)
    ]

hide_others-AreNarrower :
    (allowed : List String) (ds : Devices) → AreNarrower (hide_others allowed ds) ds
unfolding hide_others find_config AreNarrower
hide_others-AreNarrower allowed [] alias d found = absurd (ground arith)
hide_others-AreNarrower allowed ((a, e) ∷ ds) alias d found = elim (Bool-cases (str_eq a alias)) [
  | inl here ↦ elim (Bool-cases (contains allowed a)) [
    | inl kept ↦
        let same : e ≡ d = ground arith in
        (e, simp here refl, subst (λ z. IsNarrower z e) same (IsNarrower-refl e))
    | inr out ↦
        let same : hidden e ≡ d = ground arith in
        (e, simp here refl, subst (λ z. IsNarrower z e) same (hidden-IsNarrower e))
  ]
  | inr there ↦
      let (f, found', narrower) = hide_others-AreNarrower allowed ds alias d (ground arith) in
      (f, simp there found', narrower)
]

set_config-AreNarrower :
    (alias : String) (old new : DeviceConfig) (ds : Devices)
    → find_config alias ds ≡ some old
    → IsNarrower new old
    → AreNarrower (set_config alias new ds) ds
unfolding set_config find_config AreNarrower
set_config-AreNarrower alias old new [] there narrower alias' d found = absurd (ground arith)
set_config-AreNarrower alias old new ((a, e) ∷ ds) there narrower alias' d found =
    elim (Bool-cases (str_eq a alias)) [
      | inl here ↦
          let same : e ≡ old = ground arith in
          elim (Bool-cases (str_eq a alias')) [
            | inl here' ↦
                let new_one : new ≡ d = ground arith in
                (
                  e,
                  simp here' refl,
                  subst (λ z. IsNarrower d z) (sym same)
                      (subst (λ z. IsNarrower z old) new_one narrower),
                )
            | inr other' ↦
                let kept : find_config alias' ds ≡ some d = ground arith in
                (d, simp other' kept, IsNarrower-refl d)
          ]
      | inr other ↦
          let there' : find_config alias ds ≡ some old = ground arith in
          elim (Bool-cases (str_eq a alias')) [
            | inl here' ↦
                let same : e ≡ d = ground arith in
                (e, simp here' refl, subst (λ z. IsNarrower z e) same (IsNarrower-refl e))
            | inr other' ↦
                let later : find_config alias' (set_config alias new ds) ≡ some d = ground arith in
                let (f, found', n) =
                  set_config-AreNarrower alias old new ds there' narrower alias' d later in
                (f, simp other' found', n)
          ]
    ]

-- A loop whose changes narrow a device when they find no error in it.
change_devices-AreNarrower {ℓ} :
    {A : Type ℓ} (alias : A → String) (change : A → DeviceConfig → DeviceConfig × List ConfigError)
    → ((x : A) (d : DeviceConfig) → (change x d).1 ≡ [] → IsNarrower (change x d).0 d)
    → (xs : List A) (ds : Devices) → (change_devices alias change xs ds).1 ≡ []
    → AreNarrower (change_devices alias change xs ds).0 ds
unfolding change_devices
change_devices-AreNarrower alias change narrows [] ds none_found = AreNarrower-refl ds
change_devices-AreNarrower alias change narrows (x ∷ xs) ds none_found =
    elim (Option-cases (find_config (alias x) ds)) [
      | inl unknown ↦ absurd (ground arith)
      | inr (d, found) ↦
          let es = set_config (alias x) (change x d).0 ds in
          let rest = change_devices alias change xs es in
          let same : change_devices alias change (x ∷ xs) ds ≡ (rest.0, (change x d).1 ++ rest.1) =
            simp (change_devices, found) refl in
          let (first, others) =
            append_nil (change x d).1 rest.1 (sym (ap (λ r. r.1) same) ∙ none_found) in
          let inner = change_devices-AreNarrower alias change narrows xs es others in
          let outer =
            set_config-AreNarrower (alias x) d (change x d).0 ds found (narrows x d first) in
          simp same (AreNarrower-trans rest.0 es ds inner outer)
    ]

set_permissions-IsNarrower :
    (x : String × List String) (d : DeviceConfig)
    → (set_permissions x d).1 ≡ []
    → IsNarrower (set_permissions x d).0 d
set_permissions-IsNarrower (alias, ps) d e = record {
  exposed = λ h. h;
  permissions = λ p h. permission_errors-contains d.permissions ps p e h;
  takeover = λ h. h;
  unchanged = refl;
}

allow_devices-AreNarrower :
    (wanted : List String) (ds : Devices) → AreNarrower (allow_devices wanted ds).0 ds
unfolding allow_devices
allow_devices-AreNarrower [] ds = AreNarrower-refl ds
allow_devices-AreNarrower (a ∷ wanted) ds =
    hide_others-AreNarrower (allowed_devices ds (a ∷ wanted)).0 ds

pub narrow_devices-AreNarrower :
    (k : ProcessConstraints) (ds : Devices)
    → (narrow_devices k ds).1 ≡ []
    → AreNarrower (narrow_devices k ds).0 ds
unfolding narrow_devices
narrow_devices-AreNarrower k ds e =
    let one = allow_devices k.devices_allow ds in
    let two = change_devices (λ a. a) hide k.devices_deny one.0 in
    let three = change_devices (λ x. x.0) set_permissions k.device_permissions two.0 in
    let four = change_devices (λ a. a) disable_takeover_of k.disable_takeover three.0 in
    let (e1, rest) = append_nil one.1 (two.1 ++ (three.1 ++ four.1)) e in
    let (e2, rest') = append_nil two.1 (three.1 ++ four.1) rest in
    let (e3, e4) = append_nil three.1 four.1 rest' in
    let n1 = allow_devices-AreNarrower k.devices_allow ds in
    let n2 =
      change_devices-AreNarrower (λ a. a) hide (λ x d h. hidden-IsNarrower d) k.devices_deny one.0
        e2 in
    let n3 =
      change_devices-AreNarrower (λ x. x.0) set_permissions set_permissions-IsNarrower
        k.device_permissions two.0 e3 in
    let n4 =
      change_devices-AreNarrower (λ a. a) disable_takeover_of
        (λ x d h. without_takeover-IsNarrower d) k.disable_takeover three.0 e4 in
    AreNarrower-trans four.0 three.0 ds n4
      (AreNarrower-trans three.0 two.0 ds n3 (AreNarrower-trans two.0 one.0 ds n2 n1))
