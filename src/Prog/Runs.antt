-- ===== src/Prog/Runs.antt =====
-- How a program goes on after a part of it whose end is known.
use belgrade_os.Base.{◌≡◌, arith}
use belgrade_os.World.{Exn, ok, raised}
use belgrade_os.Prog.{Prog, Env, History, try_except, ◌>>=◌}

module _ {A B : Type 0} where
  pub bind_ok :
      (m : Prog A) (f : A → Prog B) (env : Env) (t : History) (a : A) (t' : History)
      → m env t ≡ (ok a, t')
      → (m >>= f) env t ≡ f a env t'
  unfolding ◌>>=◌
  bind_ok m f env t a t' e = ground arith

  pub bind_raised :
      (m : Prog A) (f : A → Prog B) (env : Env) (t : History) (x : Exn) (t' : History)
      → m env t ≡ (raised x, t')
      → (m >>= f) env t ≡ (raised x, t')
  unfolding ◌>>=◌
  bind_raised m f env t x t' e = ground arith

module _ {A : Type 0} where
  pub try_except_ok :
      (m : Prog A) (h : Exn → Prog A) (env : Env) (t : History) (a : A) (t' : History)
      → m env t ≡ (ok a, t')
      → try_except m h env t ≡ (ok a, t')
  unfolding try_except
  try_except_ok m h env t a t' e = ground arith

  pub try_except_raised :
      (m : Prog A) (h : Exn → Prog A) (env : Env) (t : History) (x : Exn) (t' : History)
      → m env t ≡ (raised x, t')
      → try_except m h env t ≡ h x env t'
  unfolding try_except
  try_except_raised m h env t x t' e = ground arith
