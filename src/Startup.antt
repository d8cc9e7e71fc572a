-- ===== src/Startup.antt =====
-- How a service of the streams starts and ends: `ensure_consumer_group` of the Redis clients.
use belgrade_os.Base.{
  String, ◌≡◌, ◌⊎◌, inl, inr, subst, Bool, Bool-cases, true, false, ◌&&◌, Option, none, some, ◌∷◌,
  if◌then◌else◌, or_text, arith,
}
use text.Mathlib.Text.{find?}
use belgrade_os.World.{Exn, Fault, response_error, Result, Result-cases, ok, raised, Cmd}
use belgrade_os.Prog.{Prog, pure, raise, try_except, try_finally, ◌>>◌, Env, History}
use belgrade_os.Calls.{running, xgroup_create, aclose}

abbrev is_found : {A : Type 0} → Option A → Bool
is_found none = false
is_found (some _) = true

abbrev is_response_error : Fault → Bool
is_response_error response_error = true
is_response_error _ = false

-- The group is there already.
unfoldable pub is_busy : Exn → Bool
is_busy exc = is_response_error exc.fault && is_found (find? exc.text "BUSYGROUP")

unfoldable pub ensure_group : String → String → Prog Unit
ensure_group stream group =
    try_except (xgroup_create stream group) (λ exc. if is_busy exc then pure tt else raise exc)

abbrev pub created : String → String → Env → History → History
created stream group env t =
    (Cmd.xgroup_create stream group, env t (Cmd.xgroup_create stream group)) ∷ t

-- The consumers of the platform controller: `except Exception: pass`.
unfoldable pub join_group : String → String → Prog Unit
join_group stream group = try_except (xgroup_create stream group) (λ exc. pure tt)

-- Whatever Redis answers, the consumer goes on after the one call.
pub join_group_lem :
    (stream group : String) (env : Env) (t : History)
    → join_group stream group env t ≡ (ok tt, created stream group env t)
unfolding join_group running
join_group_lem stream group env t = elim (Result-cases (env t (Cmd.xgroup_create stream group))) [
  | inl (u, e) ↦ ground (arith, e)
  | inr (x, e) ↦ ground (arith, e)
]

-- `worker_id or socket.gethostname()`
abbrev pub effective_id : String → String → String
effective_id worker_id hostname = or_text worker_id hostname

-- Redis created the group, or says that it is there.
abbrev pub IsReady : Result (Unit {0}) → Type 0
IsReady answer = (answer ≡ ok tt) ⊎ ((x : Exn) × (answer ≡ raised x) × (is_busy x ≡ true))

-- The creation failed: the service ends with its exception, and has made no other call.
abbrev pub IsRefused : String → String → Env → History → Result (Unit {0}) × History → Type 0
IsRefused stream group env t end =
    (x : Exn) × (env t (Cmd.xgroup_create stream group) ≡ raised x)
    × (is_busy x ≡ false)
    × (end ≡ (raised x, created stream group env t))

pub ensure_group_lem :
    (stream group : String) (env : Env) (t : History)
    → IsRefused stream group env t (ensure_group stream group env t)
      ⊎ (IsReady (env t (Cmd.xgroup_create stream group))
          × (ensure_group stream group env t ≡ (ok tt, created stream group env t)))
unfolding ensure_group running
ensure_group_lem stream group env t = elim (Result-cases (env t (Cmd.xgroup_create stream group))) [
  | inl (u, e) ↦ inr (inl (ground arith), ground (arith, e))
  | inr (x, e) ↦ elim (Bool-cases (is_busy x)) [
    | inl f ↦ inr (inr (x, e, f), ground (arith, e, f))
    | inr f ↦ inl (x, e, f, ground (arith, e, f))
  ]
]

-- `finally: await redis.close()` was the last call.
abbrev pub ClosesRedis : History → History → Type 0
ClosesRedis between t' = (r : Result (Unit {0})) × (t' ≡ (Cmd.aclose "redis", r) ∷ between)

pub finally-ClosesRedis :
    (m : Prog Unit) (env : Env) (t : History)
    → ClosesRedis (m env t).1 (try_finally m (aclose "redis") env t).1
unfolding running
finally-ClosesRedis m env t =
    let t₁ = (m env t).1 in
    elim (Result-cases (env (m env t).1 (Cmd.aclose "redis"))) [
      | inl (u, e) ↦ (ok tt, ground (arith, e))
      | inr (x, e) ↦ (raised x, ground (arith, e))
    ]

-- The group could not be created, or it is there, and then the loop ran, after which `Good` holds, and
-- the clients were closed.
abbrev pub IsServed :
    String
    → String
    → (History → Type 0)
    → (History → History → Type 0)
    → Env
    → History
    → Result (Unit {0}) × History
    → Type 0
IsServed stream group Good Closes env t end =
    IsRefused stream group env t end
    ⊎ (IsReady (env t (Cmd.xgroup_create stream group))
        × (between : History) × Good between
        × Closes between end.1)

module _ (stream group : String) (Good : History → Type 0)
    (Closes : History → History → Type 0) where
  -- A service that makes sure of its group, and then runs `m` to the end.
  pub ensure_group-IsServed :
      (m : Prog Unit) (env : Env) (t between : History)
      → Good between
      → Closes between (m env (created stream group env t)).1
      → IsServed stream group Good Closes env t ((ensure_group stream group >> m) env t)
  unfolding running
  ensure_group-IsServed m env t between good closes = elim (ensure_group_lem stream group env t) [
    | inl (x, e, f, g) ↦ inl (x, e, f, ground (arith, g))
    | inr (ready, g) ↦
        let path : m env (created stream group env t) ≡ (ensure_group stream group >> m) env t =
          ground (arith, g) in
        inr (ready, between, good, subst (λ p. Closes between p.1) path closes)
  ]
