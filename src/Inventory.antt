-- ===== src/Inventory.antt =====
-- internal/inventory/inventory.go: the static catalogue of tools. A catalogue is the list of its
-- definitions; the order in which All sorts them is left out.
use jetkvm_cli.Base.{
  ◌≡◌, ◌⊎◌, inl, inr, refl, subst, String, Bool, true, false, not, ◌&&◌, ◌||◌, Option, none, some,
  List, [], ◌∷◌, arith, All, str_eq, if◌then◌else◌, Bool-cases,
}
use jetkvm_cli.Domain.{EffectClass, observe, unknown}

-- The source's types are open strings: another text than the two constants is kept as it is.
pub data RetryPolicy : Type 0 where
  bounded_read never_after_send : RetryPolicy
  unknown_retry : String → RetryPolicy

pub data ReceiptSemantics : Type 0 where
  receipt_observation receipt_operation : ReceiptSemantics
  unknown_receipt : String → ReceiptSemantics

pub record ToolDefinition : Type 0 where
  pub name : String
  pub toolset : String
  pub effect : EffectClass
  pub read_only : Bool
  pub destructive : Bool
  pub idempotent : Bool
  pub open_world : Bool
  pub device_scoped : Bool
  pub capability : String
  pub input_schema : String
  pub output_schema : String
  pub retry : RetryPolicy
  pub receipt : ReceiptSemantics

abbrev pub is_observe : EffectClass → Bool
is_observe observe = true
is_observe _ = false

abbrev pub is_known_effect : EffectClass → Bool
is_known_effect (unknown s) = false
is_known_effect _ = true

abbrev pub is_bounded_read : RetryPolicy → Bool
is_bounded_read bounded_read = true
is_bounded_read _ = false

abbrev pub is_never_after_send : RetryPolicy → Bool
is_never_after_send never_after_send = true
is_never_after_send _ = false

abbrev pub is_receipt_observation : ReceiptSemantics → Bool
is_receipt_observation receipt_observation = true
is_receipt_observation _ = false

abbrev pub is_receipt_operation : ReceiptSemantics → Bool
is_receipt_operation receipt_operation = true
is_receipt_operation _ = false

-- Whether `validate` finds no error.
unfoldable pub is_valid_tool : ToolDefinition → Bool
is_valid_tool d =
    not (
      str_eq d.name ""
      || str_eq d.toolset ""
      || str_eq d.input_schema ""
      || str_eq d.output_schema "")
    && is_known_effect d.effect
    && not (d.read_only && not (is_receipt_observation d.receipt))
    && not (not d.read_only && not (is_receipt_operation d.receipt))
    && not (d.read_only && not (is_bounded_read d.retry))
    && not (not d.read_only && not (is_never_after_send d.retry))
    && not (not (is_observe d.effect) && d.read_only)

unfoldable pub get_tool : List ToolDefinition → String → Option ToolDefinition
get_tool [] name = none
get_tool (d ∷ ds) name = let rest = get_tool ds name in if str_eq d.name name then some d else rest

abbrev pub is_listed : Option ToolDefinition → Bool
is_listed none = false
is_listed (some d) = true

-- The loop of New: the definitions taken, and whether an error was collected.
unfoldable pub collect_tools :
    List ToolDefinition → List ToolDefinition → Bool → List ToolDefinition × Bool
collect_tools [] taken failed = (taken, failed)
collect_tools (d ∷ ds) taken failed =
    if not (is_valid_tool d) || is_listed (get_tool taken d.name)
    then collect_tools ds taken true
    else collect_tools ds (d ∷ taken) failed

unfoldable pub new_catalog : List ToolDefinition → Option (List ToolDefinition)
unfolding collect_tools
new_catalog definitions =
    let (tools, failed) = collect_tools definitions [] false in if failed then none else some tools

-- What a tool of a catalogue promises its callers: a tool that only reads is retried, and answers with
-- an observation; any other is never retried after a send, and answers with an operation.
pub record IsConsistent (d : ToolDefinition) : Type 0 where
  pub named : str_eq d.name "" ≡ false
  pub known : is_known_effect d.effect ≡ true
  pub reads :
      (d.read_only ≡ false)
      ⊎ ((d.retry ≡ bounded_read) × (d.receipt ≡ receipt_observation) × (d.effect ≡ observe))
  pub writes :
      (d.read_only ≡ true) ⊎ ((d.retry ≡ never_after_send) × (d.receipt ≡ receipt_operation))

-- Every name is found, so no two tools of the list share one.
abbrev pub NamesDistinct : List ToolDefinition → Type 0
NamesDistinct [] = Unit {0}
NamesDistinct (d ∷ ds) = (is_listed (get_tool ds d.name) ≡ false) × NamesDistinct ds

bounded_lem : (r : RetryPolicy) → is_bounded_read r ≡ true → r ≡ bounded_read
bounded_lem bounded_read h = refl
bounded_lem _ h = cc

never_lem : (r : RetryPolicy) → is_never_after_send r ≡ true → r ≡ never_after_send
never_lem never_after_send h = refl
never_lem _ h = cc

observation_lem : (r : ReceiptSemantics) → is_receipt_observation r ≡ true → r ≡ receipt_observation
observation_lem receipt_observation h = refl
observation_lem _ h = cc

operation_lem : (r : ReceiptSemantics) → is_receipt_operation r ≡ true → r ≡ receipt_operation
operation_lem receipt_operation h = refl
operation_lem _ h = cc

observe_lem : (e : EffectClass) → is_observe e ≡ true → e ≡ observe
observe_lem observe h = refl
observe_lem _ h = cc

valid-IsConsistent : (d : ToolDefinition) → is_valid_tool d ≡ true → IsConsistent d
unfolding is_valid_tool
valid-IsConsistent d h = record {
  named = ground arith;
  known = ground arith;
  reads = elim (Bool-cases d.read_only) [
    | inl r ↦ inr (
      bounded_lem d.retry (ground arith),
      observation_lem d.receipt (ground arith),
      observe_lem d.effect (ground arith),
    )
    | inr w ↦ inl w
  ];
  writes = elim (Bool-cases d.read_only) [
    | inl r ↦ inl r
    | inr w ↦ inr (never_lem d.retry (ground arith), operation_lem d.receipt (ground arith))
  ];
}

collect_failed : (ds taken : List ToolDefinition) → (collect_tools ds taken true).1 ≡ true
unfolding collect_tools
collect_failed [] taken = refl
collect_failed (d ∷ ds) taken =
    elim (Bool-cases (not (is_valid_tool d) || is_listed (get_tool taken d.name))) [
      | inl bad ↦ rw (bad, collect_tools) (collect_failed ds taken)
      | inr good ↦ rw (good, collect_tools) (collect_failed ds (d ∷ taken))
    ]

collect_sound :
    (ds taken : List ToolDefinition) (failed : Bool)
    → (collect_tools ds taken failed).1 ≡ false
    → All IsConsistent taken
    → NamesDistinct taken
    → All IsConsistent (collect_tools ds taken failed).0
      × NamesDistinct (collect_tools ds taken failed).0
unfolding collect_tools
collect_sound [] taken failed h a n = (a, n)
collect_sound (d ∷ ds) taken failed h a n =
    elim (Bool-cases (not (is_valid_tool d) || is_listed (get_tool taken d.name))) [
      | inl bad ↦ absurd (false_true (rw (bad, collect_tools) at h) (collect_failed ds taken))
      | inr good ↦
          rw (good, collect_tools)
            (collect_sound ds (d ∷ taken) failed (rw (good, collect_tools) at h)
              (valid-IsConsistent d (ground arith), a) (ground arith, n))
    ]
  where
    false_true : {b : Bool} → b ≡ false → b ≡ true → ⊥
    false_true p q = cc

-- A catalogue that New returns has consistent tools with distinct names: among all texts that a tool's
-- retry and receipt fields may hold, only the one that fits its being read-only or not is accepted.
pub new_catalog-IsConsistent :
    (definitions catalog : List ToolDefinition)
    → new_catalog definitions ≡ some catalog
    → All IsConsistent catalog × NamesDistinct catalog
unfolding new_catalog
new_catalog-IsConsistent definitions catalog h =
    let done : (collect_tools definitions [] false).1 ≡ false = ground arith in
    let same : (collect_tools definitions [] false).0 ≡ catalog = ground arith in
    let sound = collect_sound definitions [] false done tt tt in
    subst (λ x. All IsConsistent x × NamesDistinct x) same sound
