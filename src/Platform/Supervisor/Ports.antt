-- ===== src/Platform/Supervisor/Ports.antt =====
-- The table of running apps stays well formed, and no two apps share a port.
use belgrade_os.Base.{
  ℕ, ◌+◌, ◌<◌, ◌≤◌, String, ◌≡◌, ◌≢◌, refl, Bool, true, false, Option, none, some, List, [], ◌∷◌,
  arith, eq_iff, inl, inr,
}
use belgrade_os.Base.Dict.{Dict, lookup, insert, erase, lookup-insert, lookup-erase}
use belgrade_os.World.{Result, ok, raised, Result-cases}
use belgrade_os.Platform.Manifest.{Host, load_manifest}
use belgrade_os.Platform.Supervisor.{
  AppProcess, Supervisor, entry, enter, start_stopped, start_found, stop_app, start_app, start_all,
  dead_apps, watch_tick, watch, discover_and_start, startable, is_container, child_env,
}

-- No app has the port.
abbrev IsFree : ℕ → Dict AppProcess → Type 0
IsFree port [] = Unit
IsFree port ((_, proc) ∷ apps) = (proc.port ≢ port) × IsFree port apps

-- Every app stands under its own name, once, with a process and a port below `bound` that no other
-- app has.
abbrev pub AreValid : ℕ → Dict AppProcess → Type 0
AreValid bound [] = Unit
AreValid bound ((app_id, proc) ∷ apps) =
    (proc.app_id ≡ app_id)
    × (proc.process ≢ none)
    × (proc.port < bound)
    × IsFree proc.port apps
    × (lookup app_id apps ≡ none)
    × AreValid bound apps

abbrev pub IsValid : Supervisor → Type 0
IsValid s = AreValid s.next_port s.running_apps

AreValid-mono : (n m : ℕ) (apps : Dict AppProcess) → n ≤ m → AreValid n apps → AreValid m apps
AreValid-mono n m [] le h = tt
AreValid-mono n m (_ ∷ apps) le h = ground (arith, AreValid-mono n m apps le)

IsFree-erase :
    (p : ℕ) (k : String) (apps : Dict AppProcess) → IsFree p apps → IsFree p (erase k apps)
unfolding erase
IsFree-erase p k [] h = tt
IsFree-erase p k (_ ∷ apps) h = ground (arith, IsFree-erase p k apps)

AreValid-erase :
    (n : ℕ) (k : String) (apps : Dict AppProcess) → AreValid n apps → AreValid n (erase k apps)
unfolding erase
AreValid-erase n k [] h = tt
AreValid-erase n k ((j, proc) ∷ apps) h =
    ground (arith, AreValid-erase n k apps, IsFree-erase proc.port k apps, lookup-erase k j apps)

IsFree-bound : (n : ℕ) (apps : Dict AppProcess) → AreValid n apps → IsFree n apps
IsFree-bound n [] h = tt
IsFree-bound n (_ ∷ apps) h = ground (arith, IsFree-bound n apps)

IsFree-insert :
    (p : ℕ) (k : String) (proc : AppProcess) (apps : Dict AppProcess)
    → proc.port ≢ p
    → IsFree p apps
    → IsFree p (insert k proc apps)
unfolding insert
IsFree-insert p k proc [] ne h = (ne, tt)
IsFree-insert p k proc (_ ∷ apps) ne h = ground (arith, IsFree-insert p k proc apps ne)

-- A new app on the next port.
AreValid-insert :
    (n : ℕ) (k : String) (proc : AppProcess) (apps : Dict AppProcess)
    → proc.app_id ≡ k
    → proc.process ≢ none
    → proc.port ≡ n
    → lookup k apps ≡ none
    → AreValid n apps
    → AreValid (n + 1) (insert k proc apps)
unfolding insert lookup
AreValid-insert n k proc [] name runs next new h = (name, runs, omega arith, tt, refl, tt)
AreValid-insert n k proc ((j, other) ∷ apps) name runs next new h = ground (
  arith,
  AreValid-insert n k proc apps name runs next,
  IsFree-insert other.port k proc apps,
  IsFree-bound n apps,
  lookup-insert k j proc apps,
  eq_iff j k,
  eq_iff k j,
)

module _ (host : Host) where
  stop_app-IsValid :
      (app_id : String) (s : Supervisor) → IsValid s → IsValid (stop_app host app_id s)
  unfolding stop_app
  stop_app-IsValid app_id s h = ground (arith, AreValid-erase s.next_port app_id s.running_apps h)

  pub stop_app-absent :
      (app_id : String) (s : Supervisor)
      → lookup app_id (stop_app host app_id s).running_apps ≡ none
  unfolding stop_app
  stop_app-absent app_id s =
      ground (arith, lookup-erase app_id app_id s.running_apps, eq_iff app_id app_id)

  enter-IsValid :
      (app_id : String) (env : Dict String) (r : Result ℕ) (s : Supervisor)
      → lookup app_id s.running_apps ≡ none
      → IsValid s
      → IsValid (enter host app_id env r s).1
  enter-IsValid app_id env (ok pid) s new h =
      AreValid-insert s.next_port app_id (entry host app_id s.next_port pid) s.running_apps refl
        (λ e. cc) refl new h
  enter-IsValid app_id env (raised x) s new h = h

  start_stopped-IsValid :
      (app_id : String) (is_container : Result Bool) (s : Supervisor)
      → lookup app_id s.running_apps ≡ none
      → IsValid s
      → IsValid (start_stopped host app_id is_container s).1
  start_stopped-IsValid app_id (ok true) s new h = h
  start_stopped-IsValid app_id (ok false) s new h =
      elim (Result-cases (load_manifest host app_id)) [
        | inl (manifest, e) ↦
            let env = child_env host app_id s.next_port manifest in
            rw e (enter-IsValid app_id env (host.launch app_id env) s new h)
        | inr (x, e) ↦ rw e h
      ]
  start_stopped-IsValid app_id (raised x) s new h = h

  pub start_app-IsValid :
      (app_id : String) (s : Supervisor) → IsValid s → IsValid (start_app host app_id s).1
  unfolding start_app
  start_app-IsValid app_id s h =
      start_stopped-IsValid app_id (is_container host app_id) (stop_app host app_id s)
        (stop_app-absent app_id s) (stop_app-IsValid app_id s h)

  pub start_all-IsValid :
      (apps : List String) (s : Supervisor) → IsValid s → IsValid (start_all host apps s).1
  unfolding start_all
  start_all-IsValid [] s h = h
  start_all-IsValid (app_id ∷ apps) s h = ground (
    arith,
    start_app-IsValid app_id s h,
    start_all-IsValid apps (start_app host app_id s).1 (start_app-IsValid app_id s h),
  )

  start_found-IsValid :
      (found : Option (List String)) (s : Supervisor)
      → IsValid s
      → IsValid (start_found host found s).1
  start_found-IsValid none s h = h
  start_found-IsValid (some names) s h = start_all-IsValid (startable host names) s h

  watch_tick-IsValid : (s : Supervisor) → IsValid s → IsValid (watch_tick host s).1
  unfolding watch_tick
  watch_tick-IsValid s h = start_all-IsValid (dead_apps host s.running_apps) s h

watch-IsValid : (hosts : List Host) (s : Supervisor) → IsValid s → IsValid (watch hosts s).1
unfolding watch
watch-IsValid [] s h = h
watch-IsValid (host ∷ hosts) s h = ground (
  arith,
  watch_tick-IsValid host s h,
  watch-IsValid hosts (watch_tick host s).1 (watch_tick-IsValid host s h),
)

module _ (host : Host) where
  -- Whatever the host answers, exceptions included: from a well-formed table, starting or reloading
  -- an app, stopping one, any number of the watchdog's turns, in each of which the host may answer
  -- otherwise, and the discovery at startup leave a well-formed
  -- table. Each app stands there once, under its own name, with a process and with a port below the
  -- next port that no other app has.
  pub operations-IsValid :
      (s : Supervisor)
      → IsValid s
      → ((app_id : String) → IsValid (start_app host app_id s).1 × IsValid (stop_app host app_id s))
        × ((hosts : List Host) → IsValid (watch hosts s).1)
        × IsValid (discover_and_start host s).1
  unfolding discover_and_start
  operations-IsValid s h = (
    λ app_id. (start_app-IsValid host app_id s h, stop_app-IsValid host app_id s h),
    λ hosts. watch-IsValid hosts s h,
    start_found-IsValid host host.directories s h,
  )
