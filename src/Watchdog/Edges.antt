-- ===== src/Watchdog/Edges.antt =====
-- The flags of the watchdog detect the readings at which a threshold is crossed upwards.
use belgrade_os.Base.{◌≡◌, refl, Bool, true, false, ◌&&◌, List, [], ◌∷◌, ◌++◌, if◌then◌else◌, arith}
use belgrade_os.Base.Int.{ℤ, pos, leb_ℤ, ltb_ℤ}
use belgrade_os.Watchdog.{
  Host, Action, State, start, warn_temp, stage1_temp, emergency_temp, peak_of, emergency_actions,
  stage1_actions, warn_actions, turn, main_loop,
}

abbrev pub rises : ℤ → ℤ → ℤ → Bool
rises threshold previous peak = ltb_ℤ previous threshold && leb_ℤ threshold peak

-- The watchdog without flags: it compares each reading with the one before.
abbrev pub edge_actions : Host → ℤ → ℤ → List Action
edge_actions host previous peak =
    (if rises stage1_temp previous peak then stage1_actions host peak else [])
    ++ (if rises warn_temp previous peak then warn_actions host peak else [])

unfoldable pub edges : ℤ → List Host → List Action × Bool
edges previous [] = ([], false)
edges previous (host ∷ hosts) =
    let peak = peak_of host in
    let (later, exited) = edges peak hosts in
    if leb_ℤ emergency_temp peak
    then (emergency_actions host peak, true)
    else (edge_actions host previous peak ++ later, exited)

-- The flags after a reading.
abbrev flags : ℤ → State
flags previous = record {
  warned = leb_ℤ warn_temp previous;
  stage1_triggered = leb_ℤ stage1_temp previous;
}

turn_lem :
    (host : Host) (previous peak : ℤ)
    → turn host peak (flags previous) ≡ (edge_actions host previous peak, flags peak)
unfolding turn
turn_lem host previous peak = ground arith

main_loop-flags :
    (hosts : List Host) (previous : ℤ) → main_loop hosts (flags previous) ≡ edges previous hosts
unfolding main_loop edges
main_loop-flags [] previous = refl
main_loop-flags (host ∷ hosts) previous =
    rw (turn_lem host previous (peak_of host), main_loop-flags hosts (peak_of host)) refl

-- Whatever the sensors and docker answer: the loop starts exactly the programs that a watchdog
-- without flags would start, which compares each peak with the one before (0 before the first):
-- stage 1 exactly when the peak rises from below 85 °C to it or above, the notice exactly when it
-- rises from below 80 °C, and at 90 °C the emergency programs, after which nothing is started.
pub main_loop-edges : (hosts : List Host) → main_loop hosts start ≡ edges (pos 0) hosts
main_loop-edges hosts = main_loop-flags hosts (pos 0)
