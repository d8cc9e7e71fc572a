-- ===== src/Seeding/Tests.antt =====
-- The seeding script at concrete inputs.
use belgrade_os.Base.{String, ◌<>◌, ◌≡◌, refl, ◌⊎◌, List, [], ◌∷◌}
use belgrade_os.Wire.{Json, null, str, obj, end, member}
use belgrade_os.World.{Exn, Result, ok, raised}
use belgrade_os.Codec.{Codec}
use belgrade_os.Access.{index, get_or, elements}
use belgrade_os.Sample.{codec, env, text_of}
use belgrade_os.Platform.Permissions.{Permission, perms_key, sync_all}
use belgrade_os.Platform.Permissions.Grants.{stored}
use belgrade_os.Seeding.{
  Database, admin, pairs_of, discover_apps, insert_row, insert_apps, insert_users, upsert_row,
  has_key, transaction, seed,
}
use belgrade_os.Seeding.Synced.{IsSeeded, IsAdmin, has_colon, seed-IsSeeded, seed-synced}

abbrev manifest : Json
manifest = obj (
    member "app_id" (str "shopping") (
      member "ui" (obj (member "bundles" (obj (member "main" null (member "kiosk" null end))) end))
        end))

abbrev reading : Codec
reading = record codec { loads = λ _. ok manifest }

abbrev db : Database
db = record { begin = ok tt; bind = text_of; insert = λ _. ok tt; commit = ok tt }

abbrev guest : Permission
guest = record {
  user_id = "ivan@example.com";
  app_id = "shopping";
  bundle_id = "main";
  role = "guest";
}

abbrev rows : List Permission
rows = guest ∷ []

abbrev files : List (Result String)
files = ok "{}" ∷ []

abbrev seeded : List Permission
seeded =
    admin "ivan@example.com" "shopping" "main" ∷ admin "ivan@example.com" "shopping" "kiosk" ∷ []

discovered :
    discover_apps reading files
    ≡ ok ((str "shopping", str "main") ∷ (str "shopping", str "kiosk") ∷ [])
unfolding discover_apps pairs_of index get_or elements
discovered = refl

-- The guest becomes an administrator, and has a second bundle.
seed_rows : seed db reading files rows ≡ (ok tt, seeded)
unfolding seed transaction insert_users insert_apps insert_row upsert_row has_key discover_apps
    pairs_of index get_or elements
seed_rows = refl

seed-IsSeeded_example : IsSeeded reading db files rows (seed db reading files rows)
seed-IsSeeded_example = seed-IsSeeded reading db files rows

seed-synced_example :
    ((x : Exn) × (seed db reading files rows ≡ (raised x, rows)))
    ⊎ IsAdmin
        ("shopping" <> ":" <> "kiosk")
        (stored (perms_key "ivan@example.com") (sync_all (ok seeded) env []).1)
unfolding has_colon seed transaction insert_users insert_apps insert_row upsert_row has_key
    discover_apps pairs_of index get_or elements
seed-synced_example =
    seed-synced reading db files rows
      ((str "shopping", str "main") ∷ (str "shopping", str "kiosk") ∷ []) "shopping" "kiosk" seeded
      discovered refl (λ user app_id bundle. refl) (refl, (refl, tt)) refl env []
      (λ key fields u. refl)
