-- ===== src/Platform/Supervisor/Restarts.antt =====
-- What starting an app changes, and what the watchdog restarts.
use belgrade_os.Base.{
  ℕ, ◌+◌, String, ◌==◌, ◌≡◌, ◌⊎◌, refl, sym, subst, Option, Bool, true, false, none, some, List, [],
  ◌∷◌, arith, eq_iff, inl, inr, All,
}
use belgrade_os.Base.Dict.{Dict, lookup, insert, lookup-insert, lookup-erase}
use belgrade_os.World.{Result, ok, raised, Result-cases}
use belgrade_os.Platform.Manifest.{Host, AppManifest, load_manifest}
use belgrade_os.Platform.Supervisor.{
  AppProcess, Supervisor, spawn, entry, enter, start_process, start_stopped, stop_app, start_app,
  start_all, dead_apps, watch_tick, is_container, child_env, is_dead,
}
use belgrade_os.Platform.Supervisor.Ports.{IsValid, AreValid, stop_app-absent}

module _ (host : Host) where
  -- The state after a successful start.
  abbrev started : String → ℕ → Dict String → Supervisor → Supervisor
  started app_id pid env s = record {
    running_apps = insert app_id (entry host app_id s.next_port pid) s.running_apps;
    next_port = s.next_port + 1;
    actions = spawn app_id env ∷ s.actions;
  }

  -- The host started the process, for a manifest that was read and with the environment for it.
  abbrev pub Launched : String → ℕ → Dict String → ℕ → Type 0
  Launched app_id port env pid =
      (manifest : Option AppManifest) × (load_manifest host app_id ≡ ok manifest)
      × (env ≡ child_env host app_id port manifest)
      × (host.launch app_id env ≡ ok pid)

  abbrev StartsOrStays : String → Supervisor → Result (Unit {0}) × Supervisor → Type 0
  StartsOrStays app_id s (r, s') =
      (s' ≡ s)
      ⊎ ((pid : ℕ) × (env : Dict String) × (r ≡ ok tt)
          × Launched app_id s.next_port env pid
          × (s' ≡ started app_id pid env s))

  enter_shape :
      (app_id : String) (manifest : Option AppManifest) (s : Supervisor)
      → load_manifest host app_id ≡ ok manifest
      → let env = child_env host app_id s.next_port manifest in
        StartsOrStays app_id s (enter host app_id env (host.launch app_id env) s)
  enter_shape app_id manifest s e =
      let env = child_env host app_id s.next_port manifest in
      elim (Result-cases (host.launch app_id (child_env host app_id s.next_port manifest))) [
        | inl (pid, f) ↦ rw f (inr (pid, env, refl, (manifest, e, refl, f), refl))
        | inr (x, f) ↦ rw f (inl refl)
      ]

  start_stopped_shape :
      (app_id : String) (q : Result Bool) (s : Supervisor)
      → StartsOrStays app_id s (start_stopped host app_id q s)
  start_stopped_shape app_id (ok true) s = inl refl
  start_stopped_shape app_id (ok false) s = elim (Result-cases (load_manifest host app_id)) [
    | inl (manifest, e) ↦
        subst (λ q. StartsOrStays app_id s (start_process host app_id q s)) (sym e)
          (enter_shape app_id manifest s e)
    | inr (x, e) ↦ rw e (inl refl)
  ]
  start_stopped_shape app_id (raised x) s = inl refl

  stop_app-others :
      (app_id other : String) (s : Supervisor)
      → (app_id == other) ≡ false
      → lookup other (stop_app host app_id s).running_apps ≡ lookup other s.running_apps
  unfolding stop_app
  stop_app-others app_id other s ne = ground (arith, lookup-erase app_id other s.running_apps)

  -- Of the other apps nothing changes.
  start_app-others :
      (app_id other : String) (s : Supervisor)
      → (app_id == other) ≡ false
      → lookup other (start_app host app_id s).1.running_apps ≡ lookup other s.running_apps
  unfolding start_app
  start_app-others app_id other s ne =
      let stopped = stop_app host app_id s in
      elim (start_stopped_shape app_id (is_container host app_id) stopped) [
        | inl stays ↦ ground (arith, stop_app-others app_id other s ne)
        | inr (pid, env, done, launched, starts) ↦ ground (
          arith,
          stop_app-others app_id other s ne,
          lookup-insert app_id other (entry host app_id stopped.next_port pid) stopped.running_apps,
        )
      ]

  start_all-others :
      (apps : List String) (other : String) (s : Supervisor)
      → All (λ app_id. (app_id == other) ≡ false) apps
      → lookup other (start_all host apps s).1.running_apps ≡ lookup other s.running_apps
  unfolding start_all
  start_all-others [] other s h = refl
  start_all-others (app_id ∷ apps) other s (h, hs) = ground (
    arith,
    start_app-others app_id other s h,
    start_all-others apps other (start_app host app_id s).1 hs,
  )

  next_port-stop_app :
      (app_id : String) (s : Supervisor) → (stop_app host app_id s).next_port ≡ s.next_port
  unfolding stop_app
  next_port-stop_app app_id s = ground arith

  -- `start_app` on an app, running or not: afterwards the app does not run and no port is used up,
  -- or the call succeeds and the app runs in the process that the host started for it, with the
  -- environment of its manifest and of the next port, which is used up.
  -- Of every other app nothing changes.
  pub start_app_outcome :
      (app_id : String) (s : Supervisor)
      → let (r, s') = start_app host app_id s in
        (((lookup app_id s'.running_apps ≡ none) × (s'.next_port ≡ s.next_port))
          ⊎ ((pid : ℕ) × (env : Dict String) × (r ≡ ok tt)
              × Launched app_id s.next_port env pid
              × (s'.actions ≡ spawn app_id env ∷ (stop_app host app_id s).actions)
              × (lookup app_id s'.running_apps ≡ some (entry host app_id s.next_port pid))
              × (s'.next_port ≡ s.next_port + 1)))
        × ((other : String)
            → (app_id == other) ≡ false
            → lookup other s'.running_apps ≡ lookup other s.running_apps)
  unfolding start_app
  start_app_outcome app_id s =
      let stopped = stop_app host app_id s in
      (
        elim (start_stopped_shape app_id (is_container host app_id) stopped) [
          | inl stays ↦
              inl (rw stays (stop_app-absent host app_id s), rw stays (next_port-stop_app app_id s))
          | inr (pid, env, done, launched, starts) ↦ inr (
            pid,
            env,
            done,
            subst (λ port. Launched app_id port env pid) (next_port-stop_app app_id s) launched,
            rw starts refl,
            ground (
              arith,
              next_port-stop_app app_id s,
              lookup-insert app_id app_id (entry host app_id stopped.next_port pid)
                  stopped.running_apps,
              eq_iff app_id app_id,
            ),
            ground (arith, next_port-stop_app app_id s),
          )
        ],
        λ other ne. start_app-others app_id other s ne,
      )

  dead_apps-absent :
      (apps : Dict AppProcess) (other : String)
      → lookup other apps ≡ none
      → All (λ app_id. (app_id == other) ≡ false) (dead_apps host apps)
  unfolding dead_apps lookup
  dead_apps-absent [] other h = tt
  dead_apps-absent ((j, proc) ∷ apps) other h = ground (arith, dead_apps-absent apps other)

  dead_apps-alive :
      (bound : ℕ) (apps : Dict AppProcess) (other : String) (proc : AppProcess)
      → AreValid bound apps
      → lookup other apps ≡ some proc
      → is_dead host proc ≡ false
      → All (λ app_id. (app_id == other) ≡ false) (dead_apps host apps)
  unfolding dead_apps lookup
  dead_apps-alive bound [] other proc valid found alive = tt
  dead_apps-alive bound ((j, head) ∷ apps) other proc valid found alive =
      ground
        (arith, dead_apps-alive bound apps other proc, dead_apps-absent apps other, eq_iff j other)

  -- A turn of the watchdog leaves every app whose process still runs as it was, whatever becomes of
  -- the apps that it restarts.
  pub watch_tick-alive :
      (s : Supervisor) (app_id : String) (proc : AppProcess)
      → IsValid s
      → lookup app_id s.running_apps ≡ some proc
      → is_dead host proc ≡ false
      → lookup app_id (watch_tick host s).1.running_apps ≡ some proc
  unfolding watch_tick
  watch_tick-alive s app_id proc valid found alive =
      rw
        (start_all-others (dead_apps host s.running_apps) app_id s
          (dead_apps-alive s.next_port s.running_apps app_id proc valid found alive))
        found
