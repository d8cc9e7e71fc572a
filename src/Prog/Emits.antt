-- ===== src/Prog/Emits.antt =====
-- What a program asks of the outside, one rule for each way to build a program.
use belgrade_os.Base.{Bool, true, false, Option, none, some, ◌∷◌, ◌≡◌, refl, if◌then◌else◌}
use belgrade_os.World.{Exn, Result, ok, raised, Cmd, Reply}
use belgrade_os.Prog.{
  Env, History, Prog, pure, raise, lift, or_raise, ask, try_except, try_finally, ◌>>=◌,
}

-- The second history continues the first by calls of which `P` holds.
pub data Extends (P : Cmd → Type 0) (t : History) : History → Type 0 where
  same : Extends P t t
  more : {t' : History} (c : Cmd) (r : Reply c) → P c → Extends P t t' → Extends P t ((c, r) ∷ t')

pub Extends-trans :
    {P : Cmd → Type 0} {t u v : History} → Extends P t u → Extends P u v → Extends P t v
Extends-trans h same = h
Extends-trans h (more c r p k) = more c r p (Extends-trans h k)

pub Extends-mono :
    {P Q : Cmd → Type 0} {t u : History} → ((c : Cmd) → P c → Q c) → Extends P t u → Extends Q t u
Extends-mono f same = same
Extends-mono f (more c r p k) = more c r (f c p) (Extends-mono f k)

-- `m` makes only calls of which `P` holds, whatever the outside answers.
pub record Emits {A : Type 0} (P : Cmd → Type 0) (m : Prog A) : Type 0 where
  pub at : (env : Env) (t : History) → Extends P t (m env t).1

module _ {A : Type 0} {P : Cmd → Type 0} where
  pub Emits-pure : (a : A) → Emits P (pure a)
  unfolding pure
  Emits-pure a = record { at = λ env t. same }

  pub Emits-raise : (x : Exn) → Emits P (raise {A = A} x)
  unfolding raise
  Emits-raise x = record { at = λ env t. same }

  pub Emits-lift : (r : Result A) → Emits P (lift r)
  unfolding lift
  Emits-lift r = record { at = λ env t. same }

  pub Emits-if :
      (b : Bool) (m n : Prog A)
      → (b ≡ true → Emits P m)
      → (b ≡ false → Emits P n)
      → Emits P (if b then m else n)
  Emits-if true m n km kn = km refl
  Emits-if false m n km kn = kn refl

module _ {P : Cmd → Type 0} where
  pub Emits-ask : (c : Cmd) → P c → Emits P (ask c)
  unfolding ask
  Emits-ask c p = record { at = λ env t. more c (env t c) p same }

module _ {A B : Type 0} {P : Cmd → Type 0} where
  after :
      (f : A → Prog B)
      → ((a : A) → Emits P (f a))
      → (r : Result A) (env : Env) (t t' : History) → Extends P t t'
      → Extends P t
          (elim r as (λ _. Result B × History) [ ok a ↦ f a env t' | raised x ↦ (raised x, t') ]).1
  after f kf (ok a) env t t' h = Extends-trans h ((kf a).at env t')
  after f kf (raised x) env t t' h = h

  pub Emits-bind :
      (m : Prog A) (f : A → Prog B) → Emits P m → ((a : A) → Emits P (f a)) → Emits P (m >>= f)
  unfolding ◌>>=◌
  Emits-bind m f km kf = record {
    at = λ env t. after f kf (m env t).0 env t (m env t).1 (km.at env t);
  }

  -- What follows a value that was computed may use what it was computed from.
  pub Emits-lift_bind :
      (r : Result A) (f : A → Prog B)
      → ((a : A) → r ≡ ok a → Emits P (f a))
      → Emits P (lift r >>= f)
  unfolding ◌>>=◌ lift
  Emits-lift_bind (ok a) f kf = record { at = λ env t. (kf a refl).at env t }
  Emits-lift_bind (raised x) f kf = record { at = λ env t. same }

module _ {A : Type 0} {P : Cmd → Type 0} where
  caught :
      (h : Exn → Prog A)
      → ((x : Exn) → Emits P (h x))
      → (r : Result A) (env : Env) (t t' : History) → Extends P t t'
      → Extends P t
          (elim r as (λ _. Result A × History) [ ok a ↦ (ok a, t') | raised x ↦ h x env t' ]).1
  caught h kh (ok a) env t t' e = e
  caught h kh (raised x) env t t' e = Extends-trans e ((kh x).at env t')

  pub Emits-try_except :
      (m : Prog A) (h : Exn → Prog A)
      → Emits P m
      → ((x : Exn) → Emits P (h x))
      → Emits P (try_except m h)
  unfolding try_except
  Emits-try_except m h km kh = record {
    at = λ env t. caught h kh (m env t).0 env t (m env t).1 (km.at env t);
  }

module _ {A : Type 0} {P : Cmd → Type 0} where
  pub Emits-or_raise : (x : Exn) (o : Option A) → Emits P (or_raise x o)
  unfolding or_raise
  Emits-or_raise x none = Emits-raise x
  Emits-or_raise x (some a) = Emits-pure a

module _ {A : Type 0} {P : Cmd → Type 0} where
  pub Emits-try_finally :
      (m : Prog A) (f : Prog Unit) → Emits P m → Emits P f → Emits P (try_finally m f)
  unfolding try_finally
  Emits-try_finally m f km kf = record {
    at = λ env t.
        closed (f env (m env t).1).0 (m env t).0 (f env (m env t).1).1
          (Extends-trans (km.at env t) (kf.at env (m env t).1));
  }
    where
      closed :
          {t : History} (q : Result {0} Unit) (r : Result A) (u : History)
          → Extends P t u
          → Extends P t
              (elim q as (λ _. Result A × History) [ ok _ ↦ (r, u) | raised x ↦ (raised x, u) ]).1
      closed (ok _) r u e = e
      closed (raised x) r u e = e

pub ruleset emits_rules = (
  Emits-or_raise, Emits-try_finally, Emits-pure, Emits-raise, Emits-lift, Emits-if, Emits-ask,
  Emits-bind, Emits-try_except,
)
