-- ===== src/Config/Selections.antt =====
-- Which tools a configuration selects before and after internal/config/narrow.go narrowed it.
use jetkvm_cli.Base.{
  ok_injective, ◌≡◌, refl, sym, subst, ◌∙◌, inl, inr, String, Bool, true, false, not, ◌&&◌, ◌||◌,
  List, [], ◌∷◌, ◌++◌, arith, str_eq, eq_iff, contains, is_empty, Result, ok, Bool-cases,
}
use jetkvm_cli.Policy.{selected}
use jetkvm_cli.Config.{
  ConfigError, exceeds_ceiling, error_if, Selection, Config, Platform, validate_config,
}
use jetkvm_cli.Config.Narrow.{
  ProcessConstraints, exceeds, allow_errors, add_denied, narrow_selection, narrow_devices,
  narrowed_config, narrow_errors, unless_errors, narrow,
}
use jetkvm_cli.Config.Narrowing.{AreNarrower, append_nil, narrow_devices-AreNarrower}

contains-append :
    (xs ys : List String) (v : String) → contains xs v ≡ true → contains (xs ++ ys) v ≡ true
contains-append [] ys v h = absurd (ground arith)
contains-append (x ∷ xs) ys v h = ground (arith, contains-append xs ys v)

add_denied-contains :
    (denied vs : List String) (v : String)
    → contains denied v ≡ true
    → contains (add_denied denied vs) v ≡ true
unfolding add_denied
add_denied-contains denied [] v h = h
add_denied-contains denied (w ∷ vs) v h = elim (Bool-cases (contains denied w)) [
  | inl there ↦ rw (there, add_denied) (add_denied-contains denied vs v h)
  | inr new ↦
      rw (new, add_denied)
        (add_denied-contains (denied ++ (w ∷ [])) vs v (contains-append denied (w ∷ []) v h))
]

allow_errors-exceeds :
    (base : Selection) (vs : List String) (v : String)
    → allow_errors base vs ≡ []
    → contains vs v ≡ true
    → exceeds base v ≡ false
unfolding allow_errors
allow_errors-exceeds base [] v e h = absurd (ground arith)
allow_errors-exceeds base (w ∷ vs) v e h =
    let (first, rest) =
      append_nil (error_if (exceeds base w) exceeds_ceiling) (allow_errors base vs) e in
    elim (Bool-cases (str_eq w v)) [
      | inl same ↦
          subst (λ x. exceeds base x ≡ false) ((eq_iff w v).0 same)
            (no_error (exceeds base w) first)
      | inr other ↦ allow_errors-exceeds base vs v rest (ground arith)
    ]
  where
    no_error : (b : Bool) → error_if b exceeds_ceiling ≡ [] → b ≡ false
    no_error false h = refl
    no_error true h = absurd (ground arith)

-- What one selection lets through.
abbrev pub lets_through : Selection → String → Bool
lets_through s v = not (contains s.deny v) && (is_empty s.allow || contains s.allow v)

not_denied :
    (base : Selection) (deny : List String) (v : String)
    → contains (add_denied base.deny deny) v ≡ false
    → contains base.deny v ≡ false
not_denied base deny v h = elim (Bool-cases (contains base.deny v)) [
  | inl there ↦
      let kept = add_denied-contains base.deny deny v there in absurd (grind (arith, kept, h))
  | inr absent ↦ absent
]

narrow_selection-lets_through :
    (base : Selection) (allow deny : List String) (v : String)
    → (narrow_selection base allow deny).1 ≡ []
    → lets_through (narrow_selection base allow deny).0 v ≡ true
    → lets_through base v ≡ true
unfolding narrow_selection
narrow_selection-lets_through base [] deny v e h =
    let free = not_denied base deny v (ground arith) in ground (arith, free)
narrow_selection-lets_through base (a ∷ allow) deny v e h =
    let within = allow_errors-exceeds base (a ∷ allow) v e (ground arith) in ground (arith, within)

selected-lets_through :
    (toolset tool : String) (toolsets tools : Selection)
    → selected toolset tool toolsets.allow toolsets.deny tools.allow tools.deny
      ≡ (lets_through toolsets toolset && lets_through tools tool)
unfolding selected
selected-lets_through toolset tool toolsets tools = ground arith

-- Everything that a configuration lets a process do, another one lets it do.
pub record IsWithin (n c : Config) : Type 0 where
  pub devices : AreNarrower n.devices c.devices
  pub tools :
      (toolset tool : String)
      → selected toolset tool n.toolsets.allow n.toolsets.deny n.tools.allow n.tools.deny ≡ true
      → selected toolset tool c.toolsets.allow c.toolsets.deny c.tools.allow c.tools.deny ≡ true
  pub unchanged :
      n
      ≡ record c { output = n.output; toolsets = n.toolsets; tools = n.tools; devices = n.devices }

unless_errors-ok :
    {A : Type 0} (es : List ConfigError) (rest : Result (List ConfigError) A) (a : A)
    → unless_errors es rest ≡ ok a
    → (es ≡ []) × (rest ≡ ok a)
unless_errors-ok [] rest a e = (refl, e)
unless_errors-ok (x ∷ es) rest a e = absurd (ground arith)

narrowed_config-IsWithin :
    (c : Config) (k : ProcessConstraints)
    → narrow_errors c k ≡ []
    → IsWithin (narrowed_config c k) c
unfolding narrowed_config narrow_errors
narrowed_config-IsWithin c k none_found =
    let toolsets = narrow_selection c.toolsets k.toolsets_allow k.toolsets_deny in
    let tools = narrow_selection c.tools k.tools_allow k.tools_deny in
    let (e1, rest) = append_nil toolsets.1 (tools.1 ++ (narrow_devices k c.devices).1) none_found in
    let (e2, e3) = append_nil tools.1 (narrow_devices k c.devices).1 rest in
    record {
      devices = narrow_devices-AreNarrower k c.devices e3;
      tools = λ toolset tool h.
          let before = selected-lets_through toolset tool toolsets.0 tools.0 in
          let after = selected-lets_through toolset tool c.toolsets c.tools in
          let both : (lets_through toolsets.0 toolset && lets_through tools.0 tool) ≡ true =
            sym before ∙ h in
          let one =
            narrow_selection-lets_through c.toolsets k.toolsets_allow k.toolsets_deny toolset e1
              (and_left (lets_through toolsets.0 toolset) (lets_through tools.0 tool) both) in
          let two =
            narrow_selection-lets_through c.tools k.tools_allow k.tools_deny tool e2
              (and_right (lets_through toolsets.0 toolset) (lets_through tools.0 tool) both) in
          after ∙ and_both (lets_through c.toolsets toolset) (lets_through c.tools tool) one two;
      unchanged = refl;
    }
  where
    and_left : (a b : Bool) → (a && b) ≡ true → a ≡ true
    and_left a b h = ground arith

    and_right : (a b : Bool) → (a && b) ≡ true → b ≡ true
    and_right a b h = ground arith

    and_both : (a b : Bool) → a ≡ true → b ≡ true → (a && b) ≡ true
    and_both a b h h' = ground arith

-- A process can only narrow its deployment's configuration: when Narrow succeeds, every tool that the
-- result selects is one that the deployment selects; every device of it is the deployment's device of
-- the same alias, exposed, permitted and open to a takeover only where that one is, and with the same
-- device ID, origin, credentials, TLS, session and confirmation of takeovers; nothing else but the
-- output format differs, so confirmation is required as before; and the result is valid.
pub narrow-IsWithin :
    (p : Platform) (c n : Config) (k : ProcessConstraints)
    → narrow p c k ≡ ok n
    → IsWithin n c × (validate_config p n ≡ [])
unfolding narrow
narrow-IsWithin p c n k e =
    let m = narrowed_config c k in
    let (none_found, rest) =
      unless_errors-ok (narrow_errors c k) (unless_errors (validate_config p m) (ok m)) n e in
    let (valid, same) = unless_errors-ok (validate_config p m) (ok m) n rest in
    let is_n : m ≡ n = ok_injective m n refl same in
    subst (λ x. IsWithin x c × (validate_config p x ≡ [])) is_n
      (narrowed_config-IsWithin c k none_found, valid)
