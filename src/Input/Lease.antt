-- ===== src/Input/Lease.antt =====
-- internal/input/lease.go: the manager that owns the input state of one control generation, and the
-- critical sections of its methods, each a function on the state that its mutex guards. A nonce is
-- the number of its sixteen bytes, 0 when it is cleared.
pub mod Latch
use jetkvm_cli.Base.{
  ℕ, ◌≡◌, Bool, true, false, not, ◌&&◌, ◌||◌, Option, none, some, List, [], ◌∷◌, ltb, leb, ◌==◌,
  if◌then◌else◌, Result, ok, err, ◌>>=◌, ◌>>◌, refuse_if,
}
use jetkvm_cli.Base.Int.{ℤ, pos, negsuc, ltb_ℤ, leb_ℤ, eq_ℤ}
use jetkvm_cli.Input.Types.{
  InputError, input_uncertain, stale_generation, lease_busy, random_failed, Point, Limits,
  max_actions_limit,
}

pub record Manager : Type 0 where
  pub generation : ℕ
  pub active : ℕ
  pub has_cancel : Bool
  pub lease_held : Bool
  pub uncertain : Bool
  pub limits : Limits
  pub last_pointer : Point

pub record Token : Type 0 where
  pub generation : ℕ
  pub nonce : ℕ

unfoldable pub validate_limits : Limits → Bool
validate_limits l = not (
    ltb_ℤ l.key_hold (pos 0)
    || ltb_ℤ l.inter_key (pos 0)
    || ltb_ℤ l.double_click_delay (pos 0)
    || leb_ℤ l.max_actions (pos 0)
    || ltb_ℤ max_actions_limit l.max_actions
    || leb_ℤ l.max_batch_duration (pos 0)
    || leb_ℤ l.max_wait_duration (pos 0)
    || leb_ℤ l.max_total_wait (pos 0)
    || ltb_ℤ l.max_total_wait l.max_wait_duration
    || ltb_ℤ l.max_batch_duration l.max_total_wait
    || leb_ℤ l.max_observation_age (pos 0))

-- Manager.Acquire; `random` is what the random source gives, `none` where it fails.
unfoldable pub acquire : Manager → ℕ → Option ℕ → Result InputError (Manager × Token)
acquire m expected random = do
  refuse_if m.uncertain input_uncertain
  refuse_if (not (expected == m.generation)) stale_generation
  refuse_if m.lease_held lease_busy
  elim random [
    | none ↦ err random_failed
    | some nonce ↦ ok (
      record m { active = nonce; lease_held = true },
      record { generation = m.generation; nonce = nonce },
    )
  ]

abbrev pub is_current : Manager → Token → Bool
is_current m t = m.lease_held && t.generation == m.generation && t.nonce == m.active

unfoldable pub validate_token : Manager → Token → Result InputError (Unit {0})
validate_token m t = do
  refuse_if m.uncertain input_uncertain
  refuse_if (not (is_current m t)) stale_generation

unfoldable pub remember_pointer : Manager → Point → Manager
remember_pointer m p = record m { last_pointer = p }

unfoldable pub mark_uncertain : Manager → Manager
mark_uncertain m = record m { uncertain = true }

unfoldable pub begin_release : Manager → Token → Manager × Bool
begin_release m t =
    if not m.lease_held || not (t.nonce == m.active)
    then (m, false)
    else (record m { active = 0; has_cancel = false }, true)

unfoldable pub set_active_cancel : Manager → Token → Result InputError Manager
set_active_cancel m t = do
  refuse_if m.uncertain input_uncertain
  refuse_if (not (is_current m t)) stale_generation
  ok (record m { has_cancel = true })

unfoldable pub finish_release : Manager → Manager
finish_release m = record m { lease_held = false }

-- Manager.Fence: the new state, and whether it cancelled a running batch.
unfoldable pub fence : Manager → ℕ → Result InputError (Manager × Bool)
fence m expected = do
  refuse_if (not (expected == m.generation)) stale_generation
  ok (record m { uncertain = true }, m.has_cancel)

-- The first critical section of Reconcile, and its last after a neutralization that succeeded.
unfoldable pub begin_reconcile : Manager → ℕ → Result InputError (Unit {0})
begin_reconcile m expected = do
  refuse_if (not (expected == m.generation)) stale_generation
  refuse_if m.lease_held lease_busy

unfoldable pub finish_reconcile : Manager → Manager
finish_reconcile m = record m { uncertain = false }

-- The first critical section of AdvanceGeneration, and its last after a neutralization that succeeded.
unfoldable pub begin_advance : Manager → ℕ → Result InputError (Unit {0})
begin_advance m next = do
  refuse_if m.lease_held lease_busy
  refuse_if (leb next m.generation) stale_generation

unfoldable pub finish_advance : Manager → ℕ → Manager
finish_advance m next = record m { generation = next; uncertain = false }
