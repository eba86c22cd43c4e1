-- ===== src/Input/Actions/Batches.antt =====
-- What compileBatch of internal/input/actions.go guarantees of the batch that the executor runs.
use jetkvm_cli.Base.{
  ℕ, ◌+◌, ◌*◌, ◌^◌, ◌-◌, ◌≤◌, ◌≡◌, ◌⊎◌, refl, subst, sym, Bool, true, false, Option, List, [], ◌∷◌,
  arith, length, All, is_empty, if◌then◌else◌, String, ok, Result-cases, inl, inr, Bool-cases, ◌∙◌,
  ap,
}
use jetkvm_cli.Base.Int.{ℤ, pos, negsuc, pos_part, ◌≤ℤ◌, ◌+ℤ◌, int64, int64-add, int64-pos}
use jetkvm_cli.Input.Types.{
  ObservationBinding, ActionType, move, click, double_click, drag, scroll, keypress, key_hold,
  type_text, wait, screenshot, unknown_type, Action, Batch, CompiledAction, Limits, Keystroke,
  max_key_hold_duration,
}
use jetkvm_cli.Input.Keys.{compile_text, max_text_runes}
use jetkvm_cli.Input.Keys.Typing.{compile_text-types}
use jetkvm_cli.Input.Actions.Binding.{IsSized}
use jetkvm_cli.Input.Actions.Ready.{IsReady, compile_action-IsReady}
use jetkvm_cli.Input.Actions.{
  blank_item, times, compile_kind, compile_action, compile_rest, compile_batch, is_screenshot,
  is_wait,
}

abbrev max_sum : ℕ
max_sum = 2 ^ 62 - 1

abbrev max_pause : ℕ
max_pause = 2 ^ 40

-- Limits at which no sum of durations leaves an int64: pauses of at most 2 ^ 40 nanoseconds, about
-- eighteen minutes, and totals of at most 2 ^ 62 - 1, about a century and a half.
pub record AreModest (l : Limits) : Type 0 where
  pub key_hold : (pos 0 ≤ℤ l.key_hold) × (l.key_hold ≤ℤ pos max_pause)
  pub inter_key : (pos 0 ≤ℤ l.inter_key) × (l.inter_key ≤ℤ pos max_pause)
  pub double_click : (pos 0 ≤ℤ l.double_click_delay) × (l.double_click_delay ≤ℤ pos max_pause)
  pub one_wait : l.max_wait_duration ≤ℤ pos max_sum
  pub all_waits : (pos 0 ≤ℤ l.max_total_wait) × (l.max_total_wait ≤ℤ pos max_sum)
  pub whole : (pos 0 ≤ℤ l.max_batch_duration) × (l.max_batch_duration ≤ℤ pos max_sum)

-- The nanoseconds that an item takes by itself, of the kind `k`.
abbrev time_as : Limits → ActionType → CompiledAction → ℕ
time_as l double_click c = pos_part l.double_click_delay
time_as l keypress c = pos_part l.key_hold + pos_part l.inter_key
time_as l key_hold c = pos_part c.duration + pos_part l.inter_key
time_as l type_text c = length c.text * (pos_part l.key_hold + pos_part l.inter_key)
time_as l wait c = pos_part c.duration
time_as l _ c = 0

abbrev wait_of : CompiledAction → ℕ
wait_of c = if is_wait c.kind then pos_part c.duration else 0

-- The nanoseconds that a batch waits by its wait actions, and those that it takes in all.
abbrev pub total_wait : List CompiledAction → ℕ
total_wait [] = 0
total_wait (c ∷ cs) = wait_of c + total_wait cs

abbrev pub total_time : Limits → List CompiledAction → ℕ
total_time l [] = 0
total_time l (c ∷ cs) = time_as l c.kind c + total_time l cs

-- A wait is positive and no longer than the limit on one.
abbrev pub IsWithinWait : Limits → CompiledAction → Type 0
IsWithinWait l c =
    (is_wait c.kind ≡ false) ⊎ ((pos 1 ≤ℤ c.duration) × (c.duration ≤ℤ l.max_wait_duration))

sum_pauses :
    (l : Limits)
    → AreModest l
    → int64 (l.key_hold +ℤ l.inter_key) ≡ pos (pos_part l.key_hold + pos_part l.inter_key)
sum_pauses l m =
    let (k0, k1) = m.key_hold in
    let (i0, i1) = m.inter_key in int64-add l.key_hold l.inter_key k0 (omega arith) i0 (omega arith)

pos_of : (d : ℤ) → pos 0 ≤ℤ d → d ≡ pos (pos_part d)
pos_of (pos n) h = refl
pos_of (negsuc n) h = absurd (omega arith)

pos_part-le : (d : ℤ) (n : ℕ) → pos 0 ≤ℤ d → d ≤ℤ pos n → pos_part d ≤ n
pos_part-le (pos d) n h k = omega arith
pos_part-le (negsuc d) n h k = absurd (omega arith)

text_cost :
    (n : ℕ) (l : Limits)
    → AreModest l
    → n ≤ max_text_runes
    → let k = pos_part l.key_hold + pos_part l.inter_key in
      (int64 (times n (int64 (l.key_hold +ℤ l.inter_key))) ≡ pos (n * k)) × (n * k ≤ max_sum)
unfolding times
text_cost n l m h =
    let k = pos_part l.key_hold + pos_part l.inter_key in
    let (k0, k1) = m.key_hold in
    let (i0, i1) = m.inter_key in
    let first = pos_part-le l.key_hold max_pause k0 k1 in
    let second = pos_part-le l.inter_key max_pause i0 i1 in
    let small : k ≤ 2 ^ 41 = omega (arith, first, second) in
    let product : n * k ≤ 4096 * 2 ^ 41 = product_le n k h small in
    (rw (sum_pauses l m) (int64-pos (n * k) (omega arith)), omega arith)
  where
    product_le : (n k : ℕ) → n ≤ 4096 → k ≤ 2 ^ 41 → n * k ≤ 4096 * 2 ^ 41
    product_le n k a b = grind arith

-- The cost that compileAction returns is the time that its item takes.
compile_kind-time :
    (k : ActionType) (a : Action) (l : Limits) (b : Option ObservationBinding) (generation now : ℕ)
    (c : CompiledAction) (cost : ℤ)
    → AreModest l
    → compile_kind k a l b generation now ≡ ok (c, cost)
    → (cost ≡ pos (time_as l k c)) × (time_as l k c ≤ max_sum)
unfolding compile_kind blank_item
compile_kind-time move a l b generation now c cost m h = (ground arith, omega arith)
compile_kind-time click a l b generation now c cost m h = (ground arith, omega arith)
compile_kind-time double_click a l b generation now c cost m h =
    let (d0, d1) = m.double_click in
    let is_cost : cost ≡ l.double_click_delay = ground arith in
    let small = pos_part-le l.double_click_delay max_pause d0 d1 in
    (is_cost ∙ pos_of l.double_click_delay d0, omega (arith, small))
compile_kind-time drag a l b generation now c cost m h = (ground arith, omega arith)
compile_kind-time scroll a l b generation now c cost m h = (ground arith, omega arith)
compile_kind-time keypress a l b generation now c cost m h =
    let is_cost : cost ≡ int64 (l.key_hold +ℤ l.inter_key) = ground arith in
    let (k0, k1) = m.key_hold in
    let (i0, i1) = m.inter_key in
    let first = pos_part-le l.key_hold max_pause k0 k1 in
    let second = pos_part-le l.inter_key max_pause i0 i1 in
    (is_cost ∙ sum_pauses l m, omega (arith, first, second))
compile_kind-time key_hold a l b generation now c cost m h =
    let is_cost : cost ≡ int64 (c.duration +ℤ l.inter_key) = ground arith in
    let low : pos 1 ≤ℤ c.duration = ground arith in
    let high : c.duration ≤ℤ max_key_hold_duration = ground arith in
    let (i0, i1) = m.inter_key in
    let held : pos_part c.duration ≤ pos_part max_key_hold_duration =
      pos_part-le c.duration (pos_part max_key_hold_duration) (omega arith) high in
    let pause = pos_part-le l.inter_key max_pause i0 i1 in
    (
      is_cost ∙ int64-add c.duration l.inter_key (omega arith) (omega arith) i0 (omega (arith, i1)),
      omega (arith, held, pause),
    )
compile_kind-time type_text a l b generation now c cost m h =
    elim (Result-cases (compile_text a.text)) [
      | inl (e, refused) ↦ absurd (ground arith)
      | inr (ks, done) ↦
          let (typed, some_text, short) = compile_text-lengths a.text ks done in
          let is_text : ks ≡ c.text = ground arith in
          let is_cost : cost ≡ int64 (times (length ks) (int64 (l.key_hold +ℤ l.inter_key))) =
            ground arith in
          let (value, small) = text_cost (length ks) l m short in
          subst
            (λ x.
              (cost ≡ pos (length x * (pos_part l.key_hold + pos_part l.inter_key)))
              × (length x * (pos_part l.key_hold + pos_part l.inter_key) ≤ max_sum))
            is_text (is_cost ∙ value, small)
    ]
  where
    compile_text-lengths :
        (text : String) (ks : List Keystroke)
        → compile_text text ≡ ok ks
        → Unit {0} × (1 ≤ length ks) × (length ks ≤ max_text_runes)
    compile_text-lengths text ks done = let r = compile_text-types text ks done in (tt, r.1, r.2)
compile_kind-time wait a l b generation now c cost m h =
    let is_cost : cost ≡ c.duration = ground arith in
    let low : pos 1 ≤ℤ c.duration = ground arith in
    let high : c.duration ≤ℤ l.max_wait_duration = ground arith in
    let w = m.one_wait in
    (
      is_cost ∙ pos_of c.duration (omega (arith, low)),
      pos_part-le c.duration max_sum (omega (arith, low)) (omega (arith, high, w)),
    )
compile_kind-time screenshot a l b generation now c cost m h = (ground arith, omega arith)
compile_kind-time (unknown_type s) a l b generation now c cost m h = absurd (ground arith)

-- The time of an item as compileAction returns it.
compile_action-time :
    (a : Action) (l : Limits) (b : Option ObservationBinding) (generation now : ℕ)
    (c : CompiledAction) (cost : ℤ)
    → AreModest l
    → c.kind ≡ a.kind
    → compile_action a l b generation now ≡ ok (c, cost)
    → (cost ≡ pos (time_as l c.kind c)) × (time_as l c.kind c ≤ max_sum)
unfolding compile_action
compile_action-time a l b generation now c cost m k h =
    let done : compile_kind a.kind a l b generation now ≡ ok (c, cost) = ground arith in
    simp k (compile_kind-time a.kind a l b generation now c cost m done)

compile_kind-wait :
    (k : ActionType) (a : Action) (l : Limits) (b : Option ObservationBinding) (generation now : ℕ)
    (c : CompiledAction) (cost : ℤ)
    → compile_kind k a l b generation now ≡ ok (c, cost)
    → is_wait k ≡ true
    → (c.duration ≡ a.duration) × (pos 1 ≤ℤ c.duration) × (c.duration ≤ℤ l.max_wait_duration)
unfolding compile_kind blank_item
compile_kind-wait wait a l b generation now c cost h w = (ground arith, ground arith, ground arith)
compile_kind-wait _ a l b generation now c cost h w = cc

compile_action-wait :
    (a : Action) (l : Limits) (b : Option ObservationBinding) (generation now : ℕ)
    (c : CompiledAction) (cost : ℤ)
    → compile_action a l b generation now ≡ ok (c, cost)
    → is_wait a.kind ≡ true
    → (c.duration ≡ a.duration) × (pos 1 ≤ℤ c.duration) × (c.duration ≤ℤ l.max_wait_duration)
unfolding compile_action
compile_action-wait a l b generation now c cost h w =
    compile_kind-wait a.kind a l b generation now c cost (ground arith) w

-- A screenshot stands at the end only.
abbrev pub ScreenshotIsLast : List CompiledAction → Type 0
ScreenshotIsLast [] = Unit {0}
ScreenshotIsLast (c ∷ cs) = ((is_screenshot c.kind ≡ false) ⊎ (cs ≡ [])) × ScreenshotIsLast cs

-- What a round of compileBatch returns.
compile_rest-cons :
    (first : Bool) (a : Action) (rest : List Action) (batch : Batch) (l : Limits)
    (generation now : ℕ) (total estimated : ℤ) (items : List CompiledAction)
    → compile_rest first (a ∷ rest) batch l generation now total estimated ≡ ok items
    → (c : CompiledAction) × (cs : List CompiledAction) × (cost total' : ℤ) × (compile_action a l
          batch.observation generation now
        ≡ ok (c, cost))
      × (items ≡ c ∷ cs)
      × (total' ≡ (if is_wait a.kind then int64 (total +ℤ a.duration) else total))
      × (is_wait a.kind ≡ true → total' ≤ℤ l.max_total_wait)
      × (is_screenshot a.kind ≡ true → rest ≡ [])
      × ((int64 (estimated +ℤ cost)) ≤ℤ l.max_batch_duration)
      × (compile_rest false rest batch l generation now total' (int64 (estimated +ℤ cost)) ≡ ok cs)
unfolding compile_rest
compile_rest-cons first a rest batch l generation now total estimated items h =
    elim (Result-cases (compile_action a l batch.observation generation now)) [
      | inl (e, refused) ↦ ground arith
      | inr ((c, cost), done) ↦
          let total' : ℤ = if is_wait a.kind then int64 (total +ℤ a.duration) else total in
          elim (Result-cases
            (compile_rest false rest batch l generation now total' (int64 (estimated +ℤ cost)))) [
              | inl (e, refused) ↦ ground arith
              | inr (cs, more) ↦ (
                c,
                cs,
                cost,
                total',
                done,
                ground arith,
                refl,
                ground arith,
                ground arith,
                ground arith,
                more,
              )
            ]
    ]

-- The compiled form of a list of actions: the same kinds in the same order.
abbrev pub Compiles : List Action → List CompiledAction → Type 0
Compiles [] [] = Unit {0}
Compiles (a ∷ as') (c ∷ cs) = (c.kind ≡ a.kind) × Compiles as' cs
Compiles _ _ = ⊥

-- What compileBatch promises of its items, after t nanoseconds of waiting and e of time.
pub record IsRunnable (l : Limits) (t e : ℕ) (actions : List Action) (items : List CompiledAction)
    : Type 0 where
  pub ready : All IsReady items
  pub compiled : Compiles actions items
  pub screenshot_last : ScreenshotIsLast items
  pub each_wait : All (IsWithinWait l) items
  pub all_waits : pos (t + total_wait items) ≤ℤ l.max_total_wait
  pub whole_time : pos (e + total_time l items) ≤ℤ l.max_batch_duration

Compiles-nil : (cs : List CompiledAction) → Compiles [] cs → cs ≡ []
Compiles-nil [] h = refl
Compiles-nil (c ∷ cs) h = absurd h

compile_rest-nil :
    (first : Bool) (batch : Batch) (l : Limits) (generation now : ℕ) (total estimated : ℤ)
    (items : List CompiledAction)
    → compile_rest first [] batch l generation now total estimated ≡ ok items
    → items ≡ []
unfolding compile_rest
compile_rest-nil first batch l generation now total estimated items h = ground arith

-- The running total of the waits, after an item.
wait_next :
    (c : CompiledAction) (d : ℤ) (l : Limits) (t : ℕ)
    → AreModest l
    → pos t ≤ℤ l.max_total_wait
    → (is_wait c.kind ≡ true
        → (c.duration ≡ d) × (pos 1 ≤ℤ c.duration) × (c.duration ≤ℤ l.max_wait_duration))
    → ((if is_wait c.kind then int64 (pos t +ℤ d) else pos t) ≡ pos (t + wait_of c))
      × IsWithinWait l c
wait_next c d l t m h w = elim (Bool-cases (is_wait c.kind)) [
  | inr other ↦ (rw other (ap pos (omega arith)), inl other)
  | inl waits ↦
      let (same, low, high) = w waits in
      let one = m.one_wait in
      let all = m.all_waits.1 in
      let sum =
        int64-add (pos t) c.duration (omega arith) (omega (arith, h, all)) (omega (arith, low))
          (omega (arith, high, one)) in
      (rw (waits, sym same) sum, inr (low, high))
]

wait_next-le :
    (b : Bool) (l : Limits) (t t' : ℕ) (sum : ℤ)
    → pos t ≤ℤ l.max_total_wait
    → (if b then sum else pos t) ≡ pos t'
    → (b ≡ true → (if b then sum else pos t) ≤ℤ l.max_total_wait)
    → pos t' ≤ℤ l.max_total_wait
wait_next-le true l t t' sum h e bound = subst (λ x. x ≤ℤ l.max_total_wait) e (bound refl)
wait_next-le false l t t' sum h e bound = subst (λ x. x ≤ℤ l.max_total_wait) e h

compile_rest-IsRunnable :
    (first : Bool) (actions : List Action) (batch : Batch) (l : Limits) (generation now t e : ℕ)
    (items : List CompiledAction)
    → AreModest l
    → IsSized batch.observation
    → pos t ≤ℤ l.max_total_wait
    → pos e ≤ℤ l.max_batch_duration
    → compile_rest first actions batch l generation now (pos t) (pos e) ≡ ok items
    → IsRunnable l t e actions items
compile_rest-IsRunnable first [] batch l generation now t e items m z ht he h =
    rw (compile_rest-nil first batch l generation now (pos t) (pos e) items h) (record {
      ready = tt;
      compiled = tt;
      screenshot_last = tt;
      each_wait = tt;
      all_waits = omega (arith, ht);
      whole_time = omega (arith, he);
    })
compile_rest-IsRunnable first (a ∷ rest) batch l generation now t e items m z ht he h =
    let (c, cs, cost, total', done, split, sum, bound, last, whole, more) =
      compile_rest-cons first a rest batch l generation now (pos t) (pos e) items h in
    let one = compile_action-IsReady a l batch.observation generation now c cost z done in
    let k = one.0 in
    let (is_cost, small) =
      compile_action-time a l batch.observation generation now c cost m k done in
    let waited = compile_action-wait a l batch.observation generation now c cost done in
    let (next, within) =
      wait_next c a.duration l t m ht (λ w. waited (subst (λ x. is_wait x ≡ true) k w)) in
    let is_total : total' ≡ pos (t + wait_of c) =
      sum
      ∙ subst
          (λ x. (if is_wait x then int64 (pos t +ℤ a.duration) else pos t) ≡ pos (t + wait_of c)) k
          next in
    let ht' : pos (t + wait_of c) ≤ℤ l.max_total_wait =
      wait_next-le (is_wait a.kind) l t (t + wait_of c) (int64 (pos t +ℤ a.duration)) ht
        (sym sum ∙ is_total) (λ w. subst (λ x. x ≤ℤ l.max_total_wait) sum (bound w)) in
    let most = m.whole.1 in
    let is_time : int64 (pos e +ℤ cost) ≡ pos (e + time_as l c.kind c) =
      ap (λ x. int64 (pos e +ℤ x)) is_cost
      ∙ int64-add (pos e) (pos (time_as l c.kind c)) (omega arith) (omega (arith, he, most))
          (omega arith) (omega (arith, small)) in
    let he' : pos (e + time_as l c.kind c) ≤ℤ l.max_batch_duration =
      subst (λ x. x ≤ℤ l.max_batch_duration) is_time whole in
    let more' : compile_rest false rest batch l generation now (pos (t + wait_of c))
          (pos (e + time_as l c.kind c))
        ≡ ok cs =
      subst
        (λ x.
          compile_rest false rest batch l generation now x (pos (e + time_as l c.kind c)) ≡ ok cs)
        is_total
        (subst (λ x. compile_rest false rest batch l generation now total' x ≡ ok cs) is_time
          more) in
    let r =
      compile_rest-IsRunnable false rest batch l generation now (t + wait_of c)
        (e + time_as l c.kind c) cs m z ht' he' more' in
    let waits = r.all_waits in
    let time = r.whole_time in
    rw split (record {
      ready = (one.1, r.ready);
      compiled = (k, r.compiled);
      screenshot_last = (
        elim (Bool-cases (is_screenshot c.kind)) [
          | inl s ↦ inr (
              Compiles-nil cs (
                subst (λ x. Compiles x cs) (last (subst (λ x. is_screenshot x ≡ true) k s))
                  r.compiled))
          | inr other ↦ inl other
        ],
        r.screenshot_last,
      );
      each_wait = (within, r.each_wait);
      all_waits = omega (arith, waits);
      whole_time = omega (arith, time);
    })

-- Under limits at which no sum of durations leaves an int64, and for an observation of at most 2 ^ 47
-- pixels an axis: a batch that compileBatch accepts has between one action and the limit, and compiles,
-- action by action and in order, to items that the executor can send: every coordinate in the HID space,
-- every button, key, text and key hold within its limits, every wait positive and no longer than the
-- limit on one, a screenshot only at the end, no more waiting in total than the limit, and no more time
-- in all, counted item by item, than the limit on a batch.
pub compile_batch-IsRunnable :
    (batch : Batch) (l : Limits) (generation now : ℕ) (items : List CompiledAction)
    → AreModest l
    → IsSized batch.observation
    → compile_batch batch l generation now ≡ ok items
    → (1 ≤ length batch.actions)
      × (pos (length batch.actions) ≤ℤ l.max_actions)
      × IsRunnable l 0 0 batch.actions items
unfolding compile_batch
compile_batch-IsRunnable batch l generation now items m z h =
    let (w0, w1) = m.all_waits in
    let (b0, b1) = m.whole in
    (
      counted batch.actions (ground arith),
      ground arith,
      compile_rest-IsRunnable true batch.actions batch l generation now 0 0 items m z w0 b0
          (ground arith),
    )
  where
    counted : (as' : List Action) → is_empty as' ≡ false → 1 ≤ length as'
    counted [] e = cc
    counted (a ∷ as') e = omega arith
