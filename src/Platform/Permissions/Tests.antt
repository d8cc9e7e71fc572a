-- ===== src/Platform/Permissions/Tests.antt =====
-- The synchronisation of permissions at concrete rows.
use belgrade_os.Base.{String, ◌≡◌, ◌⊎◌, refl, true, false, some, List, [], ◌∷◌}
use belgrade_os.Base.Dict.{Dict, lookup, insert}
use belgrade_os.World.{ok}
use belgrade_os.Sample.{env}
use belgrade_os.Platform.Permissions.{Permission, perms_key, add_row, group_rows, sync_all}
use belgrade_os.Platform.Permissions.Grants.{granted, has_row, stored, sync_all-stored}

abbrev cook : Permission
cook = record { user_id = "u1"; app_id = "shopping"; bundle_id = "default"; role = "cook" }

abbrev guest : Permission
guest = record { user_id = "u2"; app_id = "shopping"; bundle_id = "default"; role = "guest" }

abbrev rows : List Permission
rows = cook ∷ guest ∷ record cook { app_id = "notes" } ∷ record cook { role = "owner" } ∷ []

grouped :
    group_rows [] rows
    ≡ ("u1", ("shopping:default", "owner") ∷ ("notes:default", "cook") ∷ [])
      ∷ ("u2", ("shopping:default", "guest") ∷ [])
      ∷ []
unfolding lookup insert add_row group_rows
grouped = refl

sync_all-stored_example :
    let hash = stored (perms_key "u1") (sync_all (ok rows) env []).1 in
    ((has_row "u1" rows ≡ true)
      × (perms : Dict String) × (hash ≡ some perms)
      × ((field : String) → lookup field perms ≡ granted "u1" field rows))
    ⊎ ((has_row "u1" rows ≡ false) × (hash ≡ stored (perms_key "u1") []))
sync_all-stored_example = sync_all-stored rows "u1" env [] (λ key fields u. refl)
