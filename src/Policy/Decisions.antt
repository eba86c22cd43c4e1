-- ===== src/Policy/Decisions.antt =====
-- What a decision of Evaluate, internal/policy/policy.go, rests on.
use jetkvm_cli.Base.{
  ◌≡◌, ◌⊎◌, inl, inr, refl, subst, String, Bool, true, false, not, ◌&&◌, Option, none, some, List,
  [], ◌∷◌, arith, is_empty, any, contains, Option-cases, eq_iff,
}
use jetkvm_cli.Inventory.{ToolDefinition, get_tool}
use jetkvm_cli.Policy.{
  Scope, Evaluation, DevicePolicy, Compiled, allowed, selected, in_ceiling, in_scope, find_device,
  permits, lacks_capability, evaluate_device, evaluate_tool, evaluate,
}

-- No name is denied, and each is in the allowed names where these are given.
pub record IsSelected (toolset tool : String) (s : Scope) : Type 0 where
  pub toolset_kept : contains s.toolsets_deny toolset ≡ false
  pub tool_kept : contains s.tools_deny tool ≡ false
  pub toolset_named : (s.toolsets_allow ≡ []) ⊎ (contains s.toolsets_allow toolset ≡ true)
  pub tool_named : (s.tools_allow ≡ []) ⊎ (contains s.tools_allow tool ≡ true)

empty_lem :
    (xs : List String) (b : Bool) → (not (is_empty xs) && not b) ≡ false → (xs ≡ []) ⊎ (b ≡ true)
empty_lem [] b h = inl refl
empty_lem (x ∷ xs) true h = inr refl
empty_lem (x ∷ xs) false h = cc

in_scope-IsSelected :
    (s : Scope) (t : ToolDefinition) → in_scope s t ≡ true → IsSelected t.toolset t.name s
unfolding in_scope selected
in_scope-IsSelected s t h = record {
  toolset_kept = ground arith;
  tool_kept = ground arith;
  toolset_named = empty_lem s.toolsets_allow (contains s.toolsets_allow t.toolset) (ground arith);
  tool_named = empty_lem s.tools_allow (contains s.tools_allow t.name) (ground arith);
}

abbrev pub ceiling : Compiled → Scope
ceiling c = record {
  toolsets_allow = c.toolsets_allow;
  toolsets_deny = c.toolsets_deny;
  tools_allow = c.tools_allow;
  tools_deny = c.tools_deny;
}

-- The authority that a decision gives over a device.
abbrev pub HasAuthority : Compiled → Evaluation → ToolDefinition → Option DevicePolicy → Type 0
HasAuthority c e t none =
    (t.device_scoped ≡ false) ⊎ ((e.device_id ≡ "") × (any (permits t) c.devices ≡ true))
HasAuthority c e t (some d) =
    (find_device c.devices e.device_id ≡ some d)
    × (permits t d ≡ true)
    × (lacks_capability t e ≡ false)

evaluate_device-HasAuthority :
    (c : Compiled) (e : Evaluation) (u t : ToolDefinition) (d : Option DevicePolicy)
    → evaluate_device c u e ≡ allowed t d
    → (u ≡ t) × HasAuthority c e u d
unfolding evaluate_device
evaluate_device-HasAuthority c e u t none h =
    elim (Option-cases (find_device c.devices e.device_id)) [
      | inl missing ↦ ground (arith, eq_iff e.device_id "")
      | inr (d, found) ↦ ground (arith, eq_iff e.device_id "")
    ]
evaluate_device-HasAuthority c e u t (some d) h =
    elim (Option-cases (find_device c.devices e.device_id)) [
      | inl missing ↦ ground (arith, eq_iff e.device_id "")
      | inr (f, found) ↦ ground (arith, eq_iff e.device_id "")
    ]

evaluate_tool-HasAuthority :
    (c : Compiled) (e : Evaluation) (u t : ToolDefinition) (d : Option DevicePolicy)
    → evaluate_tool c u e ≡ allowed t d
    → (u ≡ t) × (in_ceiling c u ≡ true) × (in_scope e.scope u ≡ true) × HasAuthority c e u d
unfolding evaluate_tool
evaluate_tool-HasAuthority c e u t none h =
    ground (arith, evaluate_device-HasAuthority c e u t none)
evaluate_tool-HasAuthority c e u t (some d) h =
    ground (arith, evaluate_device-HasAuthority c e u t (some d))

-- What Evaluate found before it allowed a tool.
pub evaluate-parts :
    (c : Compiled) (e : Evaluation) (t : ToolDefinition) (d : Option DevicePolicy)
    → evaluate c e ≡ allowed t d
    → (get_tool c.catalog e.tool_name ≡ some t)
      × (in_ceiling c t ≡ true)
      × (in_scope e.scope t ≡ true)
      × HasAuthority c e t d
unfolding evaluate
evaluate-parts c e t d h = elim (Option-cases (get_tool c.catalog e.tool_name)) [
  | inl missing ↦ ground arith
  | inr (u, found) ↦
      let r : evaluate_tool c u e ≡ allowed t d = rw (found, evaluate) at h in
      let (same, ceiling_ok, scope_ok, authority) = evaluate_tool-HasAuthority c e u t d r in
      subst
        (λ x.
          (get_tool c.catalog e.tool_name ≡ some x)
          × (in_ceiling c x ≡ true)
          × (in_scope e.scope x ≡ true)
          × HasAuthority c e x d)
        same (found, ceiling_ok, scope_ok, authority)
]

-- Whatever Evaluate allows is in the catalogue, is selected by the deployment's configuration and by
-- the scope of the request, and either needs no device, or has the permission of some exposed device
-- when none is named, or the permission of the exposed device that is named, with its capability
-- reported where the request asks to check it.
pub evaluate-HasAuthority :
    (c : Compiled) (e : Evaluation) (t : ToolDefinition) (d : Option DevicePolicy)
    → evaluate c e ≡ allowed t d
    → (get_tool c.catalog e.tool_name ≡ some t)
      × IsSelected t.toolset t.name (ceiling c)
      × IsSelected t.toolset t.name e.scope
      × HasAuthority c e t d
unfolding in_scope in_ceiling
evaluate-HasAuthority c e t d h =
    let (found, ceiling_ok, scope_ok, authority) = evaluate-parts c e t d h in
    (
      found,
      in_scope-IsSelected (ceiling c) t ceiling_ok,
      in_scope-IsSelected e.scope t scope_ok,
      authority,
    )
