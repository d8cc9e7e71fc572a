-- ===== src/Platform/Api.antt =====
-- The HTTP endpoints of services/platform_controller/main.py and `_require_token`.
use belgrade_os.Base.{
  ℕ, String, ◌==◌, ◌≡◌, ◌⊎◌, inl, inr, refl, Bool, Option-cases, true, false, ◌&&◌, Option, none,
  some, List, [], ◌∷◌, if◌then◌else◌, is_empty, leb, arith, eq_iff,
}
use belgrade_os.Base.Dict.{Dict}
use belgrade_os.Base.Text.{codes}
use belgrade_os.World.{Result, ok, raised}
use belgrade_os.Platform.AppId.{is_app_id}
use belgrade_os.Platform.Manifest.{Host}
use belgrade_os.Platform.Supervisor.{AppProcess, Supervisor, start_app}
use belgrade_os.Platform.Schedules
use belgrade_os.Platform.Schedules.{ScheduleEntry, Store, Services}

pub record Controller : Type 0 where
  pub supervisor : Supervisor
  pub store : Store

pub data Request : Type 0 where
  reload_app delete_schedule delete_app_schedules : String → Request
  create_schedule : ScheduleEntry → Request
  list_schedules : Option String → Option String → Request
  list_apps : Request

-- `refused` is an HTTPException with its status, or 500 for any other exception.
pub data Response : Type 0 where
  done : Response
  schedules : List ScheduleEntry → Response
  apps : Dict AppProcess → Response
  refused : ℕ → Response

abbrev ascii : List ℕ → Bool
ascii [] = true
ascii (c ∷ s) = leb c 127 && ascii s

-- `secrets.compare_digest`, which takes no text with other than ASCII characters
abbrev compare_digest : String → String → Option Bool
compare_digest a b = if ascii (codes a) && ascii (codes b) then some (a == b) else none

abbrev compared : Option Bool → Option ℕ
compared none = some 500
compared (some true) = none
compared (some false) = some 403

abbrev check_credentials : String → Option String → Option ℕ
check_credentials token none = some 403
check_credentials token (some credentials) = compared (compare_digest credentials token)

-- The status that refuses the request, if there is one. `token` is the value of
-- CONTROLLER_API_TOKEN, of the environment or else of the configuration.
unfoldable pub require_token : String → Option String → Option ℕ
require_token token creds = if is_empty token then some 500 else check_credentials token creds

-- `Depends(_require_token)`
abbrev is_public : Request → Bool
is_public list_apps = true
is_public _ = false

abbrev respond : {S : Type 0} → Result (Unit {0}) × S → (S → Controller) → Response × Controller
respond (ok _, s) put = (done, put s)
respond (raised x, s) put = (refused 500, put s)

module _ (host : Host) (services : Services) where
  -- the bodies of the endpoints
  unfoldable pub serve : Request → Controller → Response × Controller
  serve (reload_app app_id) c =
      if is_app_id app_id
      then respond (start_app host app_id c.supervisor) (λ s. record c { supervisor = s })
      else (refused 400, c)
  serve (delete_schedule id) c =
      respond (Schedules.delete_schedule services id c.store) (λ s. record c { store = s })
  serve (delete_app_schedules app_id) c =
      if is_app_id app_id
      then respond (Schedules.delete_app_schedules services app_id c.store)
          (λ s. record c { store = s })
      else (refused 400, c)
  serve (create_schedule entry) c =
      respond (Schedules.create_schedule services entry c.store) (λ s. record c { store = s })
  serve (list_schedules app_id user_id) c =
      (schedules (Schedules.list_schedules app_id user_id c.store.rows), c)
  serve list_apps c = (apps c.supervisor.running_apps, c)

  abbrev serve_if : Option ℕ → Request → Controller → Response × Controller
  serve_if none request c = serve request c
  serve_if (some status) request c = (refused status, c)

  unfoldable pub handle : String → Option String → Request → Controller → Response × Controller
  handle token creds request c =
      serve_if (if is_public request then none else require_token token creds) request c

require_token-grants :
    (token : String) (creds : Option String)
    → require_token token creds ≡ none
    → (is_empty token ≡ false) × (creds ≡ some token)
unfolding require_token
require_token-grants token none h = ground arith
require_token-grants token (some credentials) h = ground (arith, eq_iff credentials token)

module _ (host : Host) (services : Services) (token : String) (creds : Option String) where
  Refused : Request → Controller → Response × Controller → Type 0
  Refused request c (response, c') =
      (c' ≡ c) × ((request ≡ list_apps) ⊎ ((status : ℕ) × (response ≡ refused status)))

  handle-Refused :
      (request : Request) (c : Controller) (status : ℕ)
      → require_token token creds ≡ some status
      → Refused request c (handle host services token creds request c)
  unfolding handle serve Refused
  handle-Refused list_apps c status e = (refl, inl refl)
  handle-Refused (reload_app _) c status e = rw e (refl, inr (status, refl))
  handle-Refused (delete_schedule _) c status e = rw e (refl, inr (status, refl))
  handle-Refused (delete_app_schedules _) c status e = rw e (refl, inr (status, refl))
  handle-Refused (create_schedule _) c status e = rw e (refl, inr (status, refl))
  handle-Refused (list_schedules _ _) c status e = rw e (refl, inr (status, refl))

  -- A request whose credentials are not the token, or to a controller whose token is empty, changes
  -- nothing, and it is refused unless it asks for the list of apps.
  pub handle-guarded :
      (request : Request) (c : Controller)
      → ((is_empty token ≡ false) × (creds ≡ some token))
        ⊎ (((handle host services token creds request c).1 ≡ c)
            × ((request ≡ list_apps)
                ⊎ ((status : ℕ) × ((handle host services token creds request c).0
                      ≡ refused status))))
  unfolding Refused
  handle-guarded request c = elim (Option-cases (require_token token creds)) [
    | inl granted ↦ inl (require_token-grants token creds granted)
    | inr (status, e) ↦ inr (handle-Refused request c status e)
  ]
