-- ===== src/Watchdog.antt =====
-- services/watchdog/main.py: thermal zones are polled; heavy containers are killed at 85 °C and the
-- platform is shut down at 90 °C.
pub mod Edges
pub mod Shutdown
mod Tests
use belgrade_os.Base.{
  String, ◌<>◌, Bool, true, false, not, ◌&&◌, List, [], ◌∷◌, ◌++◌, if◌then◌else◌, is_empty,
}
use belgrade_os.Base.Int.{ℤ, pos, leb_ℤ, ltb_ℤ, max_ℤ, floor_div}
use belgrade_os.World.{Result, ok, raised}

-- millidegrees C
abbrev pub warn_temp : ℤ
warn_temp = pos 80000

abbrev pub stage1_temp : ℤ
stage1_temp = pos 85000

abbrev pub emergency_temp : ℤ
emergency_temp = pos 90000

-- What one turn of the loop finds: the text of each thermal zone (or the OSError of reading it),
-- `int` of a stripped text, the environment, and what `docker` does. `docker_ps` gives the words of
-- the output.
pub record Host : Type 0 where
  pub zones : List (Result String)
  pub int_of : String → Result ℤ
  pub ntfy_url : String
  pub show : ℤ → String
  pub docker_ps : String → Result (List String)
  pub docker_kill : String → Result (Unit {0})

-- The programs that the watchdog starts.
pub data Action : Type 0 where
  -- url, priority, message
  curl : String → String → String → Action
  ps kill : String → Action
  compose_down : Action

pub record State : Type 0 where
  pub warned : Bool
  pub stage1_triggered : Bool

abbrev pub start : State
start = record { warned = false; stage1_triggered = false }

abbrev keep : Result ℤ → List ℤ → List ℤ
keep (ok t) ts = t ∷ ts
keep (raised x) ts = ts

abbrev read_zone : (String → Result ℤ) → Result String → Result ℤ
read_zone int_of (ok s) = int_of s
read_zone int_of (raised x) = raised x

-- A zone that cannot be read or is no number is left out.
unfoldable pub read_temps : (String → Result ℤ) → List (Result String) → List ℤ
read_temps int_of [] = []
read_temps int_of (zone ∷ zones) = keep (read_zone int_of zone) (read_temps int_of zones)

unfoldable pub greatest : ℤ → List ℤ → ℤ
greatest t [] = t
greatest t (u ∷ us) = greatest (max_ℤ t u) us

unfoldable pub max_temp : List ℤ → ℤ
max_temp [] = pos 0
max_temp (t ∷ ts) = greatest t ts

module _ (host : Host) where
  -- What `curl` answers, or that it fails, is ignored.
  unfoldable pub notify_ntfy : String → String → List Action
  notify_ntfy message priority =
      if is_empty host.ntfy_url then [] else curl host.ntfy_url priority message ∷ []

  -- An exception leaves the loop over the containers.
  unfoldable pub kill_each : List String → List Action
  kill_each [] = []
  kill_each (cid ∷ cids) =
      let rest = kill_each cids in
      if is_empty cid
      then rest
      else kill cid ∷ (elim (host.docker_kill cid) [ ok _ ↦ rest | raised _ ↦ [] ])

  abbrev kill_listed : Result (List String) → List Action
  kill_listed (ok cids) = kill_each cids
  kill_listed (raised _) = []

  unfoldable pub kill_containers : String → List Action
  kill_containers label_value = ps label_value ∷ kill_listed (host.docker_ps label_value)

  abbrev pub peak_of : ℤ
  peak_of = max_temp (read_temps host.int_of host.zones)

  abbrev degrees : ℤ → String
  degrees peak = host.show (floor_div peak 1000)

  abbrev pub emergency_message : ℤ → String
  emergency_message peak = "EMERGENCY: " <> degrees peak <> "°C — shutting down Belgrade OS"

  abbrev pub stage1_message : ℤ → String
  stage1_message peak = "WARNING: " <> degrees peak <> "°C — stopping heavy workloads"

  abbrev pub warn_message : ℤ → String
  warn_message peak = "Notice: Belgrade OS CPU at " <> degrees peak <> "°C"

  abbrev pub emergency_actions : ℤ → List Action
  emergency_actions peak = notify_ntfy (emergency_message peak) "urgent" ++ compose_down ∷ []

  abbrev pub stage1_actions : ℤ → List Action
  stage1_actions peak =
      notify_ntfy (stage1_message peak) "high"
      ++ kill_containers "runner"
      ++ kill_containers "inference"

  abbrev pub warn_actions : ℤ → List Action
  warn_actions peak = notify_ntfy (warn_message peak) "default"

  abbrev stage1_step : ℤ → Bool → List Action × Bool
  stage1_step peak triggered =
      if leb_ℤ stage1_temp peak
      then (if triggered then [] else stage1_actions peak, true)
      else ([], false)

  abbrev warn_step : ℤ → Bool → List Action × Bool
  warn_step peak warned =
      if leb_ℤ warn_temp peak && not warned
      then (warn_actions peak, true)
      else if ltb_ℤ peak warn_temp
      then ([], false)
      else ([], warned)

  -- One turn below the emergency temperature.
  unfoldable pub turn : ℤ → State → List Action × State
  turn peak s =
      let (stage1, triggered) = stage1_step peak s.stage1_triggered in
      let (notice, warned) = warn_step peak s.warned in
      (stage1 ++ notice, record { warned = warned; stage1_triggered = triggered })

-- The loop of `main`, one host for each turn, and whether it ended by `sys.exit(1)`.
unfoldable pub main_loop : List Host → State → List Action × Bool
main_loop [] s = ([], false)
main_loop (host ∷ hosts) s =
    let peak = peak_of host in
    let (actions, s') = turn host peak s in
    let (later, exited) = main_loop hosts s' in
    if leb_ℤ emergency_temp peak
    then (emergency_actions host peak, true)
    else (actions ++ later, exited)
