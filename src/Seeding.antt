-- ===== src/Seeding.antt =====
-- scripts/seed_permissions.py. The database and the manifest files are parameters.
pub mod Synced
mod Tests
use belgrade_os.Base.{
  String, ◌==◌, Bool, false, true, ◌&&◌, ◌||◌, List, [], ◌∷◌, ◌++◌, map, if◌then◌else◌,
}
use belgrade_os.Wire.{Json, str, obj, end}
use belgrade_os.World.{Result, ok, raised}
use belgrade_os.Results.{◌>>=◌}
use belgrade_os.Codec.{Codec}
use belgrade_os.Access.{index, get_or, elements}
use belgrade_os.Platform.Permissions.{Permission}

-- What a database answers: to the beginning of a transaction, to a value as a text parameter, to an
-- insertion and to the commit.
pub record Database : Type 0 where
  pub begin : Result (Unit {0})
  pub bind : Json → Result String
  pub insert : Permission → Result (Unit {0})
  pub commit : Result (Unit {0})

abbrev is_same : Permission → Permission → Bool
is_same row other =
    row.user_id == other.user_id && row.app_id == other.app_id && row.bundle_id == other.bundle_id

unfoldable pub has_key : Permission → List Permission → Bool
has_key row [] = false
has_key row (other ∷ rows) = is_same row other || has_key row rows

abbrev with_role : Permission → Permission → Permission
with_role row other = if is_same row other then record other { role = row.role } else other

-- INSERT … ON CONFLICT DO UPDATE SET role
unfoldable pub upsert_row : Permission → List Permission → List Permission
unfolding has_key
upsert_row row rows = if has_key row rows then map (with_role row) rows else rows ++ row ∷ []

abbrev paired : Json → List Json → List (Json × Json)
paired app_id [] = []
paired app_id (bundle ∷ bundles) = (app_id, bundle) ∷ paired app_id bundles

abbrev pub admin : String → String → String → Permission
admin user app_id bundle = record {
  user_id = user;
  app_id = app_id;
  bundle_id = bundle;
  role = "admin";
}

abbrev pub users : List String
users = "ivan@example.com" ∷ []

module _ (c : Codec) where
  -- the pairs of one manifest
  unfoldable pub pairs_of : Result String → Result (List (Json × Json))
  unfolding index get_or elements
  pairs_of file = do
    source ← file
    manifest ← c.loads source
    app_id ← index "app_id" manifest
    ui ← get_or (obj end) "ui" manifest
    bundles ← get_or (obj end) "bundles" ui
    names ← elements bundles
    ok (paired app_id names)

  -- discover_apps, from what reading each manifest gives, in their order
  unfoldable pub discover_apps : List (Result String) → Result (List (Json × Json))
  unfolding pairs_of
  discover_apps [] = ok []
  discover_apps (file ∷ files) = do
    first ← pairs_of file
    rest ← discover_apps files
    ok (first ++ rest)

module _ (db : Database) where
  unfoldable pub insert_row : String → Json × Json → List Permission → Result (List Permission)
  unfolding upsert_row
  insert_row user (app, bundle) rows = do
    app_id ← db.bind app
    bundle_id ← db.bind bundle
    done ← db.insert (admin user app_id bundle_id)
    ok (upsert_row (admin user app_id bundle_id) rows)

  -- `for app_id, bundle in apps`
  unfoldable pub insert_apps :
      String → List (Json × Json) → List Permission → Result (List Permission)
  unfolding insert_row
  insert_apps user [] rows = ok rows
  insert_apps user (pair ∷ pairs) rows = do
    after ← insert_row user pair rows
    insert_apps user pairs after

  -- `for user in users`
  unfoldable pub insert_users :
      List String → List (Json × Json) → List Permission → Result (List Permission)
  unfolding insert_apps
  insert_users [] pairs rows = ok rows
  insert_users (user ∷ others) pairs rows = do
    after ← insert_apps user pairs rows
    insert_users others pairs after

  -- the transaction, up to its commit
  unfoldable pub transaction :
      Codec → List (Result String) → List Permission → Result (List Permission)
  unfolding discover_apps insert_users
  transaction c files rows = do
    begun ← db.begin
    pairs ← discover_apps c files
    after ← insert_users users pairs rows
    done ← db.commit
    ok after

  abbrev finished : List Permission → Result (List Permission) → Result (Unit {0}) × List Permission
  finished rows (ok after) = (ok tt, after)
  finished rows (raised x) = (raised x, rows)

  -- An exception rolls the transaction back.
  unfoldable pub seed :
      Codec → List (Result String) → List Permission → Result (Unit {0}) × List Permission
  unfolding transaction
  seed c files rows = finished rows (transaction c files rows)
