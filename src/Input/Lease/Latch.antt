-- ===== src/Input/Lease/Latch.antt =====
-- The uncertainty latch and the exclusive lease of internal/input/lease.go, over every interleaving
-- of the critical sections of its methods.
use jetkvm_cli.Base.{ℕ, ◌≡◌, refl, Bool, true, Option, arith, ok, err}
use jetkvm_cli.Input.Types.{input_uncertain, Point}
use jetkvm_cli.Input.Lease.{
  Manager, Token, acquire, validate_token, remember_pointer, mark_uncertain, begin_release,
  set_active_cancel, finish_release, fence,
}

-- One critical section of some goroutine. The two that clear the latch stand apart; AdvanceGeneration
-- publishes only a generation that its first section found greater than the old one.
pub data Section (m : Manager) : Manager → Type 0 where
  acquires :
      {m' : Manager} {t : Token} (expected : ℕ) (random : Option ℕ)
      → acquire m expected random ≡ ok (m', t)
      → Section m m'
  remembers : (p : Point) → Section m (remember_pointer m p)
  marks : Section m (mark_uncertain m)
  releases : (t : Token) → Section m (begin_release m t).0
  cancels : {m' : Manager} (t : Token) → set_active_cancel m t ≡ ok m' → Section m m'
  finishes : Section m (finish_release m)
  fences : {m' : Manager} {c : Bool} (expected : ℕ) → fence m expected ≡ ok (m', c) → Section m m'

pub data Sections (m : Manager) : Manager → Type 0 where
  here : Sections m m
  next : {m' m'' : Manager} → Sections m m' → Section m' m'' → Sections m m''

Section-latched : {m m' : Manager} → m.uncertain ≡ true → Section m m' → m'.uncertain ≡ true
unfolding acquire remember_pointer mark_uncertain begin_release set_active_cancel finish_release
    fence
Section-latched u (acquires expected random e) = ground arith
Section-latched u (remembers p) = u
Section-latched u marks = refl
Section-latched u (releases t) = ground arith
Section-latched u (cancels t e) = ground arith
Section-latched u finishes = u
Section-latched u (fences expected e) = ground arith

Sections-latched : {m m' : Manager} → m.uncertain ≡ true → Sections m m' → m'.uncertain ≡ true
Sections-latched u here = u
Sections-latched u (next r s) = Section-latched (Sections-latched u r) s

fenced_lem :
    (m fenced : Manager) (c : Bool) (g : ℕ) → fence m g ≡ ok (fenced, c) → fenced.uncertain ≡ true
unfolding fence
fenced_lem m fenced c g h = ground arith

-- After a fence no interleaving of the manager's sections, short of a completed Reconcile or
-- AdvanceGeneration, makes it ready: every lease is then refused and no token passes validation.
pub fence_latches :
    (m fenced m' : Manager) (c : Bool) (g expected : ℕ) (random : Option ℕ) (t : Token)
    → fence m g ≡ ok (fenced, c)
    → Sections fenced m'
    → (acquire m' expected random ≡ err input_uncertain)
      × (validate_token m' t ≡ err input_uncertain)
unfolding acquire validate_token
fence_latches m fenced m' c g expected random t f r =
    let u = Sections-latched (fenced_lem m fenced c g f) r in (ground arith, ground arith)
