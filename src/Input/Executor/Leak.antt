-- ===== src/Input/Executor/Leak.antt =====
-- A lease that Manager.RunActions of internal/input/lease.go acquires and does not give back.
use jetkvm_cli.Base.{
  ℕ, ◌≡◌, ◌≢◌, refl, true, false, Option, some, Bool, arith, ok, err, inl, inr, Result-cases,
}
use jetkvm_cli.Input.Types.{InputError, input_uncertain, lease_busy, Batch, Point}
use jetkvm_cli.Input.Lease.{
  Manager, Token, acquire, begin_release, set_active_cancel, begin_reconcile, begin_advance,
  validate_token, remember_pointer, mark_uncertain, fence, finish_reconcile, finish_advance,
}
use jetkvm_cli.Input.Executor.{Env, look, check}
use jetkvm_cli.Input.Executor.Run.{refused, run_actions, manager_run_actions}

-- What later critical sections, of any goroutines, make of a manager whose lease bears `nonce`, a nonce
-- of which no caller has the token. finishRelease is not among them, since it only follows a
-- beginRelease that took the lease; the last sections of Reconcile and of AdvanceGeneration are, since
-- a call that was under way may still reach them.
pub data Later (nonce : ℕ) (m : Manager) : Manager → Type 0 where
  here : Later nonce m m
  acquires :
      {n n' : Manager} {t : Token} (expected : ℕ) (random : Option ℕ)
      → Later nonce m n
      → acquire n expected random ≡ ok (n', t)
      → Later nonce m n'
  remembers : {n : Manager} (p : Point) → Later nonce m n → Later nonce m (remember_pointer n p)
  marks : {n : Manager} → Later nonce m n → Later nonce m (mark_uncertain n)
  releases :
      {n : Manager} (t : Token)
      → Later nonce m n
      → t.nonce ≢ nonce
      → Later nonce m (begin_release n t).0
  cancels :
      {n n' : Manager} (t : Token)
      → Later nonce m n
      → set_active_cancel n t ≡ ok n'
      → Later nonce m n'
  fences :
      {n n' : Manager} {c : Bool} (expected : ℕ)
      → Later nonce m n
      → fence n expected ≡ ok (n', c)
      → Later nonce m n'
  reconciles : {n : Manager} → Later nonce m n → Later nonce m (finish_reconcile n)
  advances : {n : Manager} (next : ℕ) → Later nonce m n → Later nonce m (finish_advance n next)

-- The lease with this nonce is held.
abbrev pub IsHeldBy : ℕ → Manager → Type 0
IsHeldBy nonce m = (m.lease_held ≡ true) × (m.active ≡ nonce)

Later-IsHeldBy : (nonce : ℕ) {m n : Manager} → IsHeldBy nonce m → Later nonce m n → IsHeldBy nonce n
unfolding acquire remember_pointer mark_uncertain begin_release set_active_cancel fence
    finish_reconcile finish_advance
Later-IsHeldBy nonce held here = held
Later-IsHeldBy nonce held (acquires expected random l e) =
    let (h, a) = Later-IsHeldBy nonce held l in absurd (ground arith)
Later-IsHeldBy nonce held (remembers p l) = Later-IsHeldBy nonce held l
Later-IsHeldBy nonce held (marks l) = Later-IsHeldBy nonce held l
Later-IsHeldBy nonce held (releases t l foreign) =
    let (h, a) = Later-IsHeldBy nonce held l in (ground arith, ground arith)
Later-IsHeldBy nonce held (cancels t l e) =
    let (h, a) = Later-IsHeldBy nonce held l in (ground arith, ground arith)
Later-IsHeldBy nonce held (fences expected l e) =
    let (h, a) = Later-IsHeldBy nonce held l in (ground arith, ground arith)
Later-IsHeldBy nonce held (reconciles l) = Later-IsHeldBy nonce held l
Later-IsHeldBy nonce held (advances next l) = Later-IsHeldBy nonce held l

-- The manager that is ready, with its lease taken and the latch set.
abbrev pub leaked : Manager → ℕ → Manager
leaked m nonce = record m { active = nonce; lease_held = true; uncertain = true }

-- Manager.RunActions on a manager that is ready, when another goroutine fences it between the
-- acquisition and the first validity check: the batch is refused, but the lease that was acquired stays
-- held, and the caller has no token to release it. After any later sections of any goroutines, a
-- Reconcile or an AdvanceGeneration that ends among them included, but none that holds a token of that
-- nonce, the lease is still held: Acquire fails, and Reconcile for the manager's generation and
-- AdvanceGeneration to any answer that the lease is busy.
pub manager_run_actions-leaks :
    (env : Env) (tick nonce expected next : ℕ) (random : Option ℕ) (batch : Batch) (m n : Manager)
    → m.uncertain ≡ false
    → m.lease_held ≡ false
    → env.fences tick ≡ true
    → Later nonce (leaked m nonce) n
    → (manager_run_actions env tick m.generation (some nonce) batch m
        ≡ (leaked m nonce, refused input_uncertain))
      × (n.lease_held ≡ true)
      × ((e : InputError) × (acquire n expected random ≡ err e))
      × (begin_reconcile n n.generation ≡ err lease_busy)
      × (begin_advance n next ≡ err lease_busy)
unfolding manager_run_actions run_actions acquire look check validate_token begin_reconcile
    begin_advance mark_uncertain
manager_run_actions-leaks env tick nonce expected next random batch m n ready free fenced later =
    let (held, own) = Later-IsHeldBy nonce (refl, refl) later in
    (ground arith, held, refused_acquire n expected random held, ground arith, ground arith)
  where
    refused_acquire :
        (n : Manager) (expected : ℕ) (random : Option ℕ)
        → n.lease_held ≡ true
        → (e : InputError) × (acquire n expected random ≡ err e)
    refused_acquire n expected random held = elim (Result-cases (acquire n expected random)) [
      | inl refusal ↦ refusal
      | inr (taken, good) ↦ absurd (ground arith)
    ]
