-- ===== src/Policy/Discovery.antt =====
-- Discovery against execution: Tools and Evaluate of internal/policy/policy.go.
use jetkvm_cli.Base.{
  ◌≡◌, ◌⊎◌, inl, inr, sym, subst, String, Bool, true, false, Option, none, some, List, [], ◌∷◌,
  arith, any, keep_if, str_eq, Bool-cases, eq_iff,
}
use jetkvm_cli.Inventory.{ToolDefinition, get_tool}
use jetkvm_cli.Policy.{
  Scope, Evaluation, DevicePolicy, Compiled, allowed, is_allowed, in_ceiling, in_scope, find_device,
  permits, evaluate_device, evaluate_tool, evaluate, listing, tools,
}
use jetkvm_cli.Policy.Decisions.{HasAuthority, evaluate-parts}

get_tool-name :
    (ts : List ToolDefinition) (name : String) (t : ToolDefinition)
    → get_tool ts name ≡ some t
    → t.name ≡ name
unfolding get_tool
get_tool-name [] name t h = ground arith
get_tool-name (d ∷ ds) name t h = elim (Bool-cases (str_eq d.name name)) [
  | inl same ↦
      let r : d ≡ t = ground arith in subst (λ x. x.name ≡ name) r ((eq_iff d.name name).0 same)
  | inr other ↦ get_tool-name ds name t (ground arith)
]

get_tool-keep_if :
    (ts : List ToolDefinition) (p : ToolDefinition → Bool) (name : String) (t : ToolDefinition)
    → get_tool ts name ≡ some t
    → p t ≡ true
    → get_tool (keep_if p ts) name ≡ some t
unfolding get_tool
get_tool-keep_if [] p name t h ok_t = ground arith
get_tool-keep_if (d ∷ ds) p name t h ok_t = elim (Bool-cases (str_eq d.name name)) [
  | inl same ↦
      let r : d ≡ t = ground arith in
      let kept : p d ≡ true = subst (λ x. p x ≡ true) (sym r) ok_t in rw kept (ground arith)
  | inr other ↦
      let rest = get_tool-keep_if ds p name t (ground arith) ok_t in
      elim (Bool-cases (p d)) [ inl kept ↦ rw kept (ground arith) | inr dropped ↦ rw dropped rest ]
]

find_device-any :
    (ds : List DevicePolicy) (id : String) (d : DevicePolicy) (p : DevicePolicy → Bool)
    → find_device ds id ≡ some d
    → p d ≡ true
    → any p ds ≡ true
unfolding find_device
find_device-any [] id d p h ok_d = ground arith
find_device-any (x ∷ xs) id d p h ok_d = elim (Bool-cases (str_eq x.device_id id)) [
  | inl same ↦
      let r : x ≡ d = ground arith in
      let kept : p x ≡ true = subst (λ y. p y ≡ true) (sym r) ok_d in ground arith
  | inr other ↦ ground (arith, find_device-any xs id d p (ground arith) ok_d)
]

listing_lem :
    (c : Compiled) (t : ToolDefinition) (scope : Scope) (id : String)
    → in_ceiling c t ≡ true
    → in_scope scope t ≡ true
    → (t.device_scoped ≡ false)
      ⊎ (is_allowed (evaluate_device c t (listing t.name scope id)) ≡ true)
    → is_allowed (evaluate_tool c t (listing t.name scope id)) ≡ true
unfolding evaluate_tool
listing_lem c t scope id h k l = ground arith

listed_under :
    (c : Compiled) (e : Evaluation) (t : ToolDefinition) (d : Option DevicePolicy)
    → HasAuthority c e t d
    → (t.device_scoped ≡ false)
      ⊎ (is_allowed (evaluate_device c t (listing t.name e.scope e.device_id)) ≡ true)
unfolding evaluate_device
listed_under c e t none (inl free) = inl free
listed_under c e t none (inr (unnamed, permitted)) = inr (ground (arith, eq_iff e.device_id ""))
listed_under c e t (some d) (found, permitted, capable) =
    let a = find_device-any c.devices e.device_id d (permits t) found permitted in
    elim (Bool-cases (str_eq e.device_id "")) [
      | inl unnamed ↦ inr (ground arith)
      | inr named ↦ inr (ground arith)
    ]

listed_anywhere :
    (c : Compiled) (e : Evaluation) (t : ToolDefinition) (d : Option DevicePolicy)
    → HasAuthority c e t d
    → (t.device_scoped ≡ false)
      ⊎ (is_allowed (evaluate_device c t (listing t.name e.scope "")) ≡ true)
unfolding evaluate_device
listed_anywhere c e t none (inl free) = inl free
listed_anywhere c e t none (inr (unnamed, permitted)) = inr (ground (arith, eq_iff "" ""))
listed_anywhere c e t (some d) (found, permitted, capable) =
    let a = find_device-any c.devices e.device_id d (permits t) found permitted in
    inr (ground (arith, eq_iff "" ""))

-- A tool that Evaluate allows to be executed is listed by Tools under its name, both for the device
-- that the request names and for no device in particular: execution never reaches past discovery.
pub evaluate-tools :
    (c : Compiled) (e : Evaluation) (t : ToolDefinition) (d : Option DevicePolicy)
    → evaluate c e ≡ allowed t d
    → (get_tool (tools c e.scope e.device_id) e.tool_name ≡ some t)
      × (get_tool (tools c e.scope "") e.tool_name ≡ some t)
unfolding tools evaluate
evaluate-tools c e t d h =
    let (found, ceiling_ok, scope_ok, authority) = evaluate-parts c e t d h in
    let name = get_tool-name c.catalog e.tool_name t found in
    let own : get_tool c.catalog t.name ≡ some t = rw (sym name) at found in
    let here =
      listing_lem c t e.scope e.device_id ceiling_ok scope_ok (listed_under c e t d authority) in
    let anywhere =
      listing_lem c t e.scope "" ceiling_ok scope_ok (listed_anywhere c e t d authority) in
    (
      get_tool-keep_if c.catalog _ e.tool_name t found (rw (own, evaluate) here),
      get_tool-keep_if c.catalog _ e.tool_name t found (rw (own, evaluate) anywhere),
    )
