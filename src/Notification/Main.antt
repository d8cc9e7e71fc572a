-- ===== src/Notification/Main.antt =====
-- `main` of services/notification/main.py, config.py, and the choice of the driver.
use belgrade_os.Base.{
  ℕ, String, ◌<>◌, ◌==◌, ◌≡◌, ◌⊎◌, inl, inr, refl, subst, Bool, Bool-cases, false, if◌then◌else◌,
  arith,
}
use belgrade_os.World.{Exn, value_error, Result, Result-cases, ok, raised, Cmd}
use belgrade_os.Prog.{Prog, lift, try_finally, ◌>>=◌, ◌>>◌, Env, History}
use belgrade_os.Calls.{running, aclose}
use belgrade_os.Codec.{Codec}
use belgrade_os.Delivery.{readable, xack_calls}
use belgrade_os.Streams.{notifications_stream}
use belgrade_os.Startup.{
  ensure_group, effective_id, ClosesRedis, IsServed, ensure_group-IsServed, created,
}
use belgrade_os.Notification.Ntfy.{close}
use belgrade_os.Notification.{consumer_group, consumer_loop}
use belgrade_os.Notification.Acks.{consumer_loop-goes_on}

pub record Config : Type 0 where
  pub redis_url : String
  pub ntfy_base_url : String
  pub ntfy_topic : String
  pub notification_driver : String
  pub worker_id : String

-- `get_driver` knows one driver; of a driver, whether it has a client of its own, which this one is
-- not given.
unfoldable pub get_driver : (String → String) → Config → Result Bool
get_driver repr cfg =
    if cfg.notification_driver == "ntfy"
    then ok false
    else raised (record {
      fault = value_error;
      text = "Unknown notification driver: " <> repr cfg.notification_driver;
    })

abbrev pub Done : History → Type 0
Done t = readable notifications_stream t ≡ xack_calls notifications_stream t

-- `finally: await redis_client.close()`, and a driver without a client makes no call to close it.
finally-ClosesRedis :
    (m : Prog Unit) (env : Env) (t : History)
    → ClosesRedis (m env t).1 (try_finally m (aclose "redis" >> close false) env t).1
unfolding running close
finally-ClosesRedis m env t =
    let t₁ = (m env t).1 in
    elim (Result-cases (env (m env t).1 (Cmd.aclose "redis"))) [
      | inl (u, e) ↦ (ok tt, ground (arith, e))
      | inr (x, e) ↦ (raised x, ground (arith, e))
    ]

-- `repr` is that of Python.
module _ (c : Codec) (repr : String → String) (cfg : Config) (hostname : String) where
  unfoldable pub serve : ℕ → Bool → Prog Unit
  serve turns has_client =
      ensure_group notifications_stream consumer_group
      >> try_finally
          (consumer_loop c cfg.ntfy_base_url cfg.ntfy_topic turns
            (effective_id cfg.worker_id hostname))
          (aclose "redis" >> close has_client)

  unfoldable pub main : ℕ → Prog Unit
  main turns = do has_client ← lift (get_driver repr cfg); serve turns has_client

  -- An unknown driver: no call was made.
  abbrev pub IsUnknown : Env → History → Result (Unit {0}) × History → Type 0
  IsUnknown env t end =
      ((cfg.notification_driver == "ntfy") ≡ false)
      × ((x : Exn) × (x.fault ≡ value_error) × (end ≡ (raised x, t)))

  pub main-IsServed :
      (turns : ℕ) (env : Env) (t : History)
      → Done t
      → IsUnknown env t (main turns env t)
        ⊎ IsServed notifications_stream consumer_group Done ClosesRedis env t (main turns env t)
  unfolding main serve get_driver running
  main-IsServed turns env t settled = elim (Bool-cases (cfg.notification_driver == "ntfy")) [
    | inr e ↦
        let text = "Unknown notification driver: " <> repr cfg.notification_driver in
        let x : Exn = record { fault = value_error; text = text } in
        inl (e, (x, refl, ground (arith, e)))
    | inl e ↦
        let loop =
          consumer_loop c cfg.ntfy_base_url cfg.ntfy_topic turns
            (effective_id cfg.worker_id hostname) in
        let t₁ = created notifications_stream consumer_group env t in
        let path : serve turns false env t ≡ main turns env t = ground (arith, e) in
        inr (
          subst (IsServed notifications_stream consumer_group Done ClosesRedis env t) path (
            ensure_group-IsServed notifications_stream consumer_group Done ClosesRedis
              (try_finally loop (aclose "redis" >> close false)) env t (loop env t₁).1
              (consumer_loop-goes_on c cfg.ntfy_base_url cfg.ntfy_topic turns
                (effective_id cfg.worker_id hostname) env t₁ settled).1
              (finally-ClosesRedis loop env t₁)))
  ]
