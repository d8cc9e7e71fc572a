-- ===== src/Platform/Permissions.antt =====
-- `PermissionSyncManager.sync_all` of services/platform_controller/scheduler.py, with
-- `sync_permissions` of redis_client.py.
pub mod Grants
mod Tests
use belgrade_os.Base.{String, ◌<>◌, Option, none, some, List, [], ◌∷◌}
use belgrade_os.Base.Dict.{Dict, lookup, insert}
use belgrade_os.World.{Result}
use belgrade_os.Prog.{Prog, pure, lift, try_except, ◌>>=◌, ◌>>◌}
use belgrade_os.Calls.{replace_hash}

-- a row of shared.app_permissions
pub record Permission : Type 0 where
  pub user_id : String
  pub app_id : String
  pub bundle_id : String
  pub role : String

abbrev pub perms_key : String → String
perms_key user_id = "perms:" <> user_id

abbrev pub field_of : Permission → String
field_of row = row.app_id <> ":" <> row.bundle_id

-- `user_perms[uid]`, made empty where there is none
abbrev perms_of : Option (Dict String) → Dict String
perms_of none = []
perms_of (some perms) = perms

unfoldable pub add_row : Permission → Dict (Dict String) → Dict (Dict String)
unfolding lookup insert
add_row row users =
    insert row.user_id (insert (field_of row) row.role (perms_of (lookup row.user_id users))) users

-- `for row in result.all()`
unfoldable pub group_rows : Dict (Dict String) → List Permission → Dict (Dict String)
group_rows users [] = users
group_rows users (row ∷ rows) = group_rows (add_row row users) rows

-- `for uid, perms in user_perms.items()`
unfoldable pub sync_users : Dict (Dict String) → Prog Unit
sync_users [] = pure tt
sync_users ((user_id, perms) ∷ users) = replace_hash (perms_key user_id) perms >> sync_users users

-- `selected` is what the database answers.
unfoldable pub sync_all : Result (List Permission) → Prog Unit
sync_all selected =
    try_except (do rows ← lift selected; sync_users (group_rows [] rows)) (λ exc. pure tt)
