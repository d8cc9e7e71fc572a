-- ===== src/Prog.antt =====
-- Programs over the outside: calls, sequencing, exceptions, `finally`.
pub mod Emits
pub mod Runs
use belgrade_os.Base.{List, ◌∷◌, Option, none, some}
use belgrade_os.World.{Exn, Result, ok, raised, Cmd, Reply}

-- A call and its answer.
abbrev pub Event : Type 0
Event = (c : Cmd) × Reply c

-- The newest event stands first.
abbrev pub History : Type 0
History = List Event

abbrev pub Env : Type 0
Env = History → (c : Cmd) → Reply c

abbrev pub Prog : Type 0 → Type 0
Prog A = Env → History → Result A × History

module _ {A : Type 0} where
  unfoldable pub pure : A → Prog A
  pure a env t = (ok a, t)

  unfoldable pub raise : Exn → Prog A
  raise x env t = (raised x, t)

  unfoldable pub lift : Result A → Prog A
  lift r env t = (r, t)

  -- the value, or the exception where there is none
  unfoldable pub or_raise : Exn → Option A → Prog A
  unfolding raise pure
  or_raise x none = raise x
  or_raise x (some a) = pure a

infixl 5 ◌>>=◌ ◌>>◌
unfoldable pub ◌>>=◌ : {A B : Type 0} → Prog A → (A → Prog B) → Prog B
◌>>=◌ m f env t = let (r, t') = m env t in elim r [ ok a ↦ f a env t' | raised x ↦ (raised x, t') ]

abbrev pub ◌>>◌ : {A B : Type 0} → Prog A → Prog B → Prog B
m >> k = m >>= λ _. k

-- `try: m` with handlers: `h` raises again what no `except` clause takes.
unfoldable pub try_except : {A : Type 0} → Prog A → (Exn → Prog A) → Prog A
try_except m h env t = let (r, t') = m env t in elim r [ ok a ↦ (ok a, t') | raised x ↦ h x env t' ]

-- `try: m finally: f`: what `f` raises replaces the outcome of `m`.
unfoldable pub try_finally : {A : Type 0} → Prog A → Prog Unit → Prog A
try_finally m f env t =
    let (r, t') = m env t in
    let (q, u) = f env t' in elim q [ ok _ ↦ (r, u) | raised x ↦ (raised x, u) ]

-- A call that cannot fail, and one that may raise.
unfoldable pub ask : (c : Cmd) → Prog (Reply c)
ask c env t = let r = env t c in (ok r, (c, r) ∷ t)
