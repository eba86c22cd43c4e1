-- ===== src/Input/Actions/Ready.antt =====
-- What compileAction of internal/input/actions.go guarantees of an item that the executor runs.
use jetkvm_cli.Base.{ℕ, ◌≤◌, ◌≡◌, refl, Option, arith, length, All, ok, Result-cases, inl, inr}
use jetkvm_cli.Base.Int.{ℤ, pos, negsuc, ◌≤ℤ◌}
use jetkvm_cli.Input.Types.{
  Point, ObservationBinding, ActionType, move, click, double_click, drag, scroll, keypress,
  key_hold, type_text, wait, screenshot, unknown_type, Action, CompiledAction, Limits,
  max_key_hold_duration,
}
use jetkvm_cli.Input.Protocol.{max_mouse_buttons}
use jetkvm_cli.Input.Keys.{compile_key_combo, compile_text, max_text_runes}
use jetkvm_cli.Input.Keys.Combos.{compile_key_combo-reports}
use jetkvm_cli.Input.Keys.Typing.{IsTypable, compile_text-types}
use jetkvm_cli.Input.Actions.Binding.{
  OnScreen, IsSized, bind_point-OnScreen, bind_path-OnScreen, button_mask-le,
}
use jetkvm_cli.Input.Actions.{
  blank_item, bind_point, bind_path, button_mask, compile_pointer, compile_kind, compile_action,
}

-- The executor can send a compiled action: its coordinates are in the HID space, its button is
-- known, and its keys, text and times are within the limits.
abbrev pub IsReadyAs : ActionType → CompiledAction → Type 0
IsReadyAs move c = OnScreen c.point
IsReadyAs click c = OnScreen c.point × (c.button ≤ max_mouse_buttons)
IsReadyAs double_click c = OnScreen c.point × (c.button ≤ max_mouse_buttons)
IsReadyAs drag c =
    All OnScreen c.path
    × (2 ≤ length c.path)
    × (length c.path ≤ 64)
    × (c.button ≤ max_mouse_buttons)
IsReadyAs scroll c =
    (negsuc 126 ≤ℤ c.delta_x)
    × (c.delta_x ≤ℤ pos 127)
    × (negsuc 126 ≤ℤ c.delta_y)
    × (c.delta_y ≤ℤ pos 127)
IsReadyAs keypress c = length c.keys ≤ 6
IsReadyAs key_hold c =
    (length c.keys ≤ 6) × (pos 1 ≤ℤ c.duration) × (c.duration ≤ℤ max_key_hold_duration)
IsReadyAs type_text c = All IsTypable c.text × (length c.text ≤ max_text_runes)
IsReadyAs wait c = pos 1 ≤ℤ c.duration
IsReadyAs screenshot c = Unit {0}
IsReadyAs (unknown_type s) c = ⊥

abbrev pub IsReady : CompiledAction → Type 0
IsReady c = IsReadyAs c.kind c

compile_pointer-OnScreen :
    (a : Action) (l : Limits) (b : Option ObservationBinding) (generation now : ℕ)
    (c : CompiledAction)
    → IsSized b
    → compile_pointer a l b generation now ≡ ok c
    → (c.kind ≡ a.kind) × OnScreen c.point
unfolding compile_pointer blank_item
compile_pointer-OnScreen a l b generation now c z h =
    let p : Point = record { x = a.x; y = a.y } in
    elim (Result-cases (bind_point p b generation now l.max_observation_age)) [
      | inl (e, refused) ↦ ground arith
      | inr (q, bound) ↦
          ground (arith, bind_point-OnScreen p q b generation now l.max_observation_age z bound)
    ]

compile_kind-IsReady :
    (k : ActionType) (a : Action) (l : Limits) (b : Option ObservationBinding) (generation now : ℕ)
    (c : CompiledAction) (cost : ℤ)
    → a.kind ≡ k
    → IsSized b
    → compile_kind k a l b generation now ≡ ok (c, cost)
    → (c.kind ≡ k) × IsReadyAs k c
unfolding compile_kind blank_item
compile_kind-IsReady move a l b generation now c cost k z h =
    ground (arith, compile_pointer-OnScreen a l b generation now c z)
compile_kind-IsReady click a l b generation now c cost k z h =
    elim (Result-cases (compile_pointer a l b generation now)) [
      | inl (e, refused) ↦ ground arith
      | inr (i, done) ↦ elim (Result-cases (button_mask a.button)) [
        | inl (e, refused) ↦ ground arith
        | inr (m, known) ↦ ground (
          arith,
          compile_pointer-OnScreen a l b generation now i z done,
          button_mask-le a.button m known,
        )
      ]
    ]
compile_kind-IsReady double_click a l b generation now c cost k z h =
    elim (Result-cases (compile_pointer a l b generation now)) [
      | inl (e, refused) ↦ ground arith
      | inr (i, done) ↦ elim (Result-cases (button_mask a.button)) [
        | inl (e, refused) ↦ ground arith
        | inr (m, known) ↦ ground (
          arith,
          compile_pointer-OnScreen a l b generation now i z done,
          button_mask-le a.button m known,
        )
      ]
    ]
compile_kind-IsReady drag a l b generation now c cost k z h =
    elim (Result-cases (bind_path a.path b generation now l.max_observation_age)) [
      | inl (e, refused) ↦ ground arith
      | inr (ps, done) ↦ elim (Result-cases (button_mask a.button)) [
        | inl (e, refused) ↦ ground arith
        | inr (m, known) ↦ ground (
          arith,
          bind_path-OnScreen a.path ps b generation now l.max_observation_age z done,
          button_mask-le a.button m known,
        )
      ]
    ]
compile_kind-IsReady scroll a l b generation now c cost k z h = ground arith
compile_kind-IsReady keypress a l b generation now c cost k z h =
    elim (Result-cases (compile_key_combo a.keys)) [
      | inl (e, refused) ↦ ground arith
      | inr ((m, keys), done) ↦ ground (arith, compile_key_combo-reports a.keys m keys done)
    ]
compile_kind-IsReady key_hold a l b generation now c cost k z h =
    elim (Result-cases (compile_key_combo a.keys)) [
      | inl (e, refused) ↦ ground arith
      | inr ((m, keys), done) ↦ ground (arith, compile_key_combo-reports a.keys m keys done)
    ]
compile_kind-IsReady type_text a l b generation now c cost k z h =
    elim (Result-cases (compile_text a.text)) [
      | inl (e, refused) ↦ ground arith
      | inr (ks, done) ↦ ground (arith, compile_text-types a.text ks done)
    ]
compile_kind-IsReady wait a l b generation now c cost k z h = ground arith
compile_kind-IsReady screenshot a l b generation now c cost k z h = ground arith
compile_kind-IsReady (unknown_type s) a l b generation now c cost k z h = cc

pub compile_action-IsReady :
    (a : Action) (l : Limits) (b : Option ObservationBinding) (generation now : ℕ)
    (c : CompiledAction) (cost : ℤ)
    → IsSized b
    → compile_action a l b generation now ≡ ok (c, cost)
    → (c.kind ≡ a.kind) × IsReady c
unfolding compile_action
compile_action-IsReady a l b generation now c cost z h =
    let done : compile_kind a.kind a l b generation now ≡ ok (c, cost) = ground arith in
    let r = compile_kind-IsReady a.kind a l b generation now c cost refl z done in
    (r.0, simp r.0 r.1)
