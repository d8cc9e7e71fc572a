-- ===== src/Runner/Main.antt =====
-- `main` of services/runner/main.py, and config.py.
use belgrade_os.Base.{ℕ, String, ◌≡◌, ◌⊎◌, inl, inr, ◌∷◌, arith}
use belgrade_os.Base.Int.{ℤ}
use belgrade_os.World.{Exn, Result, Result-cases, ok, raised, Cmd}
use belgrade_os.Prog.{Prog, try_finally, ◌>>◌, Env, History}
use belgrade_os.Calls.{running, aclose}
use belgrade_os.Codec.{Codec}
use belgrade_os.Delivery.{IsSettled, LacksData}
use belgrade_os.Streams.{tool_calls_stream}
use belgrade_os.Startup.{ensure_group, effective_id, IsServed, ensure_group-IsServed, created}
use belgrade_os.Runner.{consumer_group, consumer_loop}
use belgrade_os.Runner.Acks.{consumer_loop-acks}

pub record Config : Type 0 where
  pub redis_url : String
  pub bridge_url : String
  pub worker_id : String
  pub lease_ttl_s : ℤ
  pub tool_timeout_s : ℤ

-- `await bridge.close()` and `await redis.close()`, of which the second is left out where the first
-- raises
abbrev pub ClosesBoth : History → History → Type 0
ClosesBoth between t' =
    ((x : Exn) × (t' ≡ (Cmd.aclose "bridge", raised x) ∷ between))
    ⊎ ((r : Result (Unit {0})) × (t'
          ≡ (Cmd.aclose "redis", r) ∷ (Cmd.aclose "bridge", ok tt) ∷ between))

abbrev pub Done : History → Type 0
Done t = IsSettled tool_calls_stream t ⊎ LacksData tool_calls_stream t

finally-ClosesBoth :
    (m : Prog Unit) (env : Env) (t : History)
    → ClosesBoth (m env t).1 (try_finally m (aclose "bridge" >> aclose "redis") env t).1
unfolding running
finally-ClosesBoth m env t =
    let t₁ = (m env t).1 in
    elim (Result-cases (env (m env t).1 (Cmd.aclose "bridge"))) [
      | inr (x, e) ↦ inl (x, ground (arith, e))
      | inl (u, e) ↦
          elim (Result-cases
            (env ((Cmd.aclose "bridge", ok tt) ∷ (m env t).1) (Cmd.aclose "redis"))) [
              | inl (v, f) ↦ inr (ok tt, ground (arith, e, f))
              | inr (x, f) ↦ inr (raised x, ground (arith, e, f))
            ]
    ]

module _ (c : Codec) (cfg : Config) (hostname : String) where
  -- the loop runs for a given number of turns
  unfoldable pub main : ℕ → Prog Unit
  main turns =
      ensure_group tool_calls_stream consumer_group
      >> try_finally
          (consumer_loop c cfg.bridge_url turns (effective_id cfg.worker_id hostname)
            cfg.lease_ttl_s)
          (aclose "bridge" >> aclose "redis")

  pub main-IsServed :
      (turns : ℕ) (env : Env) (t : History)
      → IsSettled tool_calls_stream t
      → IsServed tool_calls_stream consumer_group Done ClosesBoth env t (main turns env t)
  unfolding main
  main-IsServed turns env t settled =
      let loop =
        consumer_loop c cfg.bridge_url turns (effective_id cfg.worker_id hostname)
          cfg.lease_ttl_s in
      let t₁ = created tool_calls_stream consumer_group env t in
      ensure_group-IsServed tool_calls_stream consumer_group Done ClosesBoth _ env t (loop env t₁).1
        (consumer_loop-acks c cfg.bridge_url turns (effective_id cfg.worker_id hostname)
          cfg.lease_ttl_s env t₁ settled).0
        (finally-ClosesBoth loop env t₁)
