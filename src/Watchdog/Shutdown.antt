-- ===== src/Watchdog/Shutdown.antt =====
-- When the watchdog shuts the platform down.
use belgrade_os.Base.{
  String, All, All-append, ◌++◌, ◌∙◌, sym, ap, append_assoc, not, ◌&&◌, ◌≡◌, refl, ◌↔◌, ◌⊎◌, inl,
  inr, Bool, Bool-cases, true, false, List, [], ◌∷◌, arith,
}
use belgrade_os.Base.Int.{ℤ, pos, leb_ℤ, max_ℤ}
use belgrade_os.World.{Result-cases}
use belgrade_os.Watchdog.{
  Host, stage1_message, warn_message, emergency_message, warn_temp, stage1_temp, Action,
  compose_down, State, notify_ntfy, kill_each, kill_containers, stage1_actions, stage1_step,
  warn_step, emergency_temp, read_temps, greatest, max_temp, peak_of, turn, main_loop,
}

-- Some temperature reaches the bound.
abbrev Reaches : ℤ → List ℤ → Type 0
Reaches bound [] = ⊥
Reaches bound (t ∷ ts) = (leb_ℤ bound t ≡ true) ⊎ Reaches bound ts

-- Some temperature of some turn is 90 °C or more.
abbrev pub Overheats : List Host → Type 0
Overheats [] = ⊥
Overheats (host ∷ hosts) =
    Reaches emergency_temp (read_temps host.int_of host.zones) ⊎ Overheats hosts

greatest_iff :
    (bound t : ℤ) (ts : List ℤ)
    → (leb_ℤ bound (greatest t ts) ≡ true) ↔ ((leb_ℤ bound t ≡ true) ⊎ Reaches bound ts)
unfolding greatest
greatest_iff bound t [] = ground arith
greatest_iff bound t (u ∷ us) = ground (arith, greatest_iff bound (max_ℤ t u) us)

max_temp_iff :
    (bound : ℤ) (ts : List ℤ)
    → leb_ℤ bound (pos 0) ≡ false
    → (leb_ℤ bound (max_temp ts) ≡ true) ↔ Reaches bound ts
unfolding max_temp
max_temp_iff bound [] h = ground arith
max_temp_iff bound (t ∷ ts) h = greatest_iff bound t ts

abbrev pub NotDown : Action → Type 0
NotDown compose_down = ⊥
NotDown _ = Unit

module _ (host : Host) where
  notify_ntfy-NotDown :
      (message priority : String) → All NotDown (notify_ntfy host message priority)
  unfolding notify_ntfy
  notify_ntfy-NotDown message priority = ground arith

  kill_each-NotDown : (cids : List String) → All NotDown (kill_each host cids)
  unfolding kill_each
  kill_each-NotDown [] = tt
  kill_each-NotDown (cid ∷ cids) = ground (arith, kill_each-NotDown cids)

  kill_containers-NotDown : (label : String) → All NotDown (kill_containers host label)
  unfolding kill_containers
  kill_containers-NotDown label = elim (Result-cases (host.docker_ps label)) [
    | inl (cids, e) ↦ rw e (tt, kill_each-NotDown cids)
    | inr (x, e) ↦ rw e (tt, tt)
  ]

  stage1_actions-NotDown : (peak : ℤ) → All NotDown (stage1_actions host peak)
  stage1_actions-NotDown peak =
      All-append NotDown _ _
        (All-append NotDown _ _ (notify_ntfy-NotDown (stage1_message host peak) "high")
          (kill_containers-NotDown "runner"))
        (kill_containers-NotDown "inference")

  stage1_step-NotDown :
      (peak : ℤ) (triggered : Bool) → All NotDown (stage1_step host peak triggered).0
  stage1_step-NotDown peak triggered = elim (Bool-cases (leb_ℤ stage1_temp peak)) [
    | inl e ↦ elim (Bool-cases triggered) [
      | inl done ↦ rw (e, done) tt
      | inr fresh ↦ rw (e, fresh) (stage1_actions-NotDown peak)
    ]
    | inr e ↦ rw e tt
  ]

  warn_step-NotDown : (peak : ℤ) (warned : Bool) → All NotDown (warn_step host peak warned).0
  warn_step-NotDown peak warned = elim (Bool-cases (leb_ℤ warn_temp peak && not warned)) [
    | inl e ↦ rw e (notify_ntfy-NotDown (warn_message host peak) "default")
    | inr e ↦ rw e (ground arith)
  ]

  turn-NotDown : (peak : ℤ) (s : State) → All NotDown (turn host peak s).0
  unfolding turn
  turn-NotDown peak s =
      All-append NotDown _ _ (stage1_step-NotDown peak s.stage1_triggered)
        (warn_step-NotDown peak s.warned)

-- What an exit has started: some programs, of which none brings the platform down, and at last the
-- one that does. Without an exit none does.
abbrev pub DownAtEnd : List Action × Bool → Type 0
DownAtEnd (actions, false) = All NotDown actions
DownAtEnd (actions, true) =
    (earlier : List Action) × (actions ≡ earlier ++ compose_down ∷ []) × All NotDown earlier

DownAtEnd-prepend :
    (actions : List Action) (r : List Action × Bool)
    → All NotDown actions
    → DownAtEnd r
    → DownAtEnd (actions ++ r.0, r.1)
DownAtEnd-prepend actions (later, false) h g = All-append NotDown actions later h g
DownAtEnd-prepend actions (later, true) h (earlier, e, g) = (
  actions ++ earlier,
  ap (λ l. actions ++ l) e ∙ sym (append_assoc actions earlier (compose_down ∷ [])),
  All-append NotDown actions earlier h g,
)

main_loop-DownAtEnd : (hosts : List Host) (s : State) → DownAtEnd (main_loop hosts s)
unfolding main_loop
main_loop-DownAtEnd [] s = tt
main_loop-DownAtEnd (host ∷ hosts) s = elim (Bool-cases (leb_ℤ emergency_temp (peak_of host))) [
  | inl hot ↦ rw hot (
      let message = emergency_message host (peak_of host) in
      (notify_ntfy host message "urgent", refl, notify_ntfy-NotDown host message "urgent"))
  | inr cool ↦ rw cool (
      DownAtEnd-prepend (turn host (peak_of host) s).0
        (main_loop hosts (turn host (peak_of host) s).1) (turn-NotDown host (peak_of host) s)
        (main_loop-DownAtEnd hosts (turn host (peak_of host) s).1))
]

exits_iff : (hosts : List Host) (s : State) → ((main_loop hosts s).1 ≡ true) ↔ Overheats hosts
unfolding main_loop
exits_iff [] s = ground arith
exits_iff (host ∷ hosts) s = ground (
  arith,
  max_temp_iff emergency_temp (read_temps host.int_of host.zones) refl,
  exits_iff hosts (turn host (peak_of host) s).1,
)

-- From every state of the flags: the loop ends by `sys.exit(1)` exactly if in some turn some thermal
-- zone that can be read shows 90 °C or more. `docker compose down` is then the last program that it
-- has started, and no program before it was that one; a loop that does not end never starts it.
pub main_loop-exits :
    (hosts : List Host) (s : State)
    → (((main_loop hosts s).1 ≡ true) ↔ Overheats hosts) × DownAtEnd (main_loop hosts s)
main_loop-exits hosts s = (exits_iff hosts s, main_loop-DownAtEnd hosts s)
