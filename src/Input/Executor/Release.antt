-- ===== src/Input/Executor/Release.antt =====
-- The end of every batch of internal/input/executor.go: what Lease.Release leaves.
use jetkvm_cli.Base.{ℕ, ◌+◌, ◌≡◌, ◌⊎◌, true, false, Option, none, some, List, [], ◌∷◌, All, err}
use jetkvm_cli.Base.Int.{pos}
use jetkvm_cli.Input.Types.{InputError, Point}
use jetkvm_cli.Input.Protocol.{keyboard_report, pointer_report, relative_mouse_report}
use jetkvm_cli.Input.Executor.{Env, Session, Sent, hid, flush, reliable, look, check, frame_of}
use jetkvm_cli.Input.Executor.Safety.{IsOf}
use jetkvm_cli.Input.Executor.Run.{BatchReceipt, batch_ambiguous, Returned, refused, ran}

-- The session holds the manager's lease.
pub record IsOwner (s : Session) : Type 0 where
  pub unreleased : s.released ≡ false
  pub held : s.manager.lease_held ≡ true
  pub own : s.token.nonce ≡ s.manager.active

-- The log ends with frames that release all keys and buttons, and a flush, under generation g.
abbrev pub EndsNeutral : ℕ → List Sent → Type 0
EndsNeutral g log =
    (p : Point) × (earlier : List Sent) × (log
      ≡ flush g
        ∷ hid g reliable (frame_of (relative_mouse_report (pos 0) (pos 0) 0))
        ∷ hid g reliable (frame_of (pointer_report p.x p.y 0))
        ∷ hid g reliable (frame_of (keyboard_report 0 []))
        ∷ earlier)

-- The transport answered without an error at the four ticks from n on.
abbrev pub AllTaken : Env → ℕ → Type 0
AllTaken env n =
    (env.answer n ≡ none)
    × (env.answer (n + 1) ≡ none)
    × (env.answer (n + 2) ≡ none)
    × (env.answer (n + 3) ≡ none)

-- A batch that ran, in the session that it leaves; its last four ticks are those of the neutral frames
-- and the flush.
pub record IsClosed (env : Env) (g : ℕ) (s : Session) (receipt : BatchReceipt) : Type 0 where
  pub released : s.released ≡ true
  pub free : s.manager.lease_held ≡ false
  pub retired : s.manager.active ≡ 0
  pub neutral : EndsNeutral g s.log
  pub cleanup :
      (n : ℕ) × (s.tick ≡ n + 4)
      × (((receipt.neutralized ≡ true) × AllTaken env n)
          ⊎ ((receipt.neutralized ≡ false)
              × (¬ AllTaken env n)
              × (s.manager.uncertain ≡ true)
              × (receipt.status ≡ batch_ambiguous)))

-- What Lease.Release leaves of a session.
record IsCleaned (env : Env) (s s' : Session) (cleanup : Option InputError) : Type 0 where
  token : s'.token ≡ s.token
  released : s'.released ≡ true
  free : s'.manager.lease_held ≡ false
  retired : s'.manager.active ≡ 0
  neutral : EndsNeutral s.token.generation s'.log
  ticks : s'.tick ≡ s.tick + 4
  taken : cleanup ≡ none → AllTaken env s.tick
  lost : (e : InputError) → cleanup ≡ some e → ¬ AllTaken env s.tick
  fenced : (e : InputError) → cleanup ≡ some e → s'.manager.uncertain ≡ true
  sent : All (IsOf s.token.generation) s.log → All (IsOf s.token.generation) s'.log

abbrev retired_session : Session → Session
retired_session s = record s {
  released = true;
  manager = record s.manager { active = 0; has_cancel = false };
}

-- What RunActions leaves: a batch that ran is closed, and one that was refused sent nothing and freed
-- the lease, unless the lease was not valid at its start.
abbrev pub Ends : Env → Session → Session × Returned → Type 0
Ends env s (s', ran receipt errors) =
    IsClosed env s.token.generation s' receipt × All (IsOf s.token.generation) s'.log
Ends env s (s', refused e) =
    (s'.log ≡ s.log) × ((s'.manager.lease_held ≡ false) ⊎ (check (look env s) ≡ err e))
