-- ===== src/Watchdog/Tests.antt =====
-- The watchdog at concrete readings.
use belgrade_os.Base.{String, ◌==◌, ◌≡◌, ◌↔◌, refl, if◌then◌else◌, true, List, [], ◌∷◌}
use belgrade_os.Base.Int.{ℤ, pos}
use belgrade_os.World.{Result, ok, raised, value_error, os_error}
use belgrade_os.Watchdog.{
  Host, ps, kill, compose_down, start, read_temps, greatest, max_temp, notify_ntfy, kill_each,
  kill_containers, turn, main_loop,
}
use belgrade_os.Watchdog.Edges.{edges, main_loop-edges}
use belgrade_os.Watchdog.Shutdown.{Overheats, DownAtEnd, main_loop-exits}

abbrev int_of : String → Result ℤ
int_of s =
    if s == "86000"
    then ok (pos 86000)
    else if s == "91000"
    then ok (pos 91000)
    else raised (record { fault = value_error; text = "invalid literal" })

-- One container of each role; a zone that cannot be read, one that is no number, and one more.
abbrev host_at : String → Host
host_at reading = record {
  zones =
      raised (record { fault = os_error; text = "no such device" }) ∷ ok "n/a" ∷ ok reading ∷ [];
  int_of = int_of;
  ntfy_url = "";
  show = λ _. "86";
  docker_ps = λ role. ok (role ∷ []);
  docker_kill = λ _. ok tt;
}

abbrev heating : List Host
heating = host_at "86000" ∷ host_at "86000" ∷ host_at "" ∷ host_at "86000" ∷ host_at "91000" ∷ []

-- The second reading repeats the first and starts nothing; the third falls back to 0.
heating_runs : main_loop heating start ≡ (
  ps "runner"
      ∷ kill "runner"
      ∷ ps "inference"
      ∷ kill "inference"
      ∷ ps "runner"
      ∷ kill "runner"
      ∷ ps "inference"
      ∷ kill "inference"
      ∷ compose_down
      ∷ [],
  true,
)
unfolding read_temps greatest max_temp notify_ntfy kill_each kill_containers turn main_loop
heating_runs = refl

main_loop-edges_example : main_loop heating start ≡ edges (pos 0) heating
main_loop-edges_example = main_loop-edges heating

main_loop-exits_example :
    (((main_loop heating start).1 ≡ true) ↔ Overheats heating) × DownAtEnd (main_loop heating start)
main_loop-exits_example = main_loop-exits heating start
