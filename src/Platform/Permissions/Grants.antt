-- ===== src/Platform/Permissions/Grants.antt =====
-- What the synchronisation writes to Redis.
use text.Mathlib.TextLemmas.{append_cancel_left}
use belgrade_os.Base.{
  String, ap, ◌⊎◌, ◌||◌, Bool-cases, ◌==◌, ◌≡◌, refl, eq_iff, Bool, ◌&&◌, true, false, Option, none,
  some, List, [], ◌∷◌, if◌then◌else◌, arith, inl, inr, Option-cases,
}
use belgrade_os.Base.Dict.{Dict, lookup, insert, lookup-insert, lookup-nil, NodupKeys}
use belgrade_os.World.{Cmd, Reply, ok, raised}
use belgrade_os.Prog.{Env, History}
use belgrade_os.Calls.{running}
use belgrade_os.Platform.Permissions.{
  Permission, perms_key, field_of, perms_of, add_row, group_rows, sync_users, sync_all,
}

-- The role that the table gives a user under a field; of several rows the last counts.
unfoldable pub granted : String → String → List Permission → Option String
granted user_id field [] = none
granted user_id field (row ∷ rows) = elim (granted user_id field rows) [
  | some role ↦ some role
  | none ↦ if row.user_id == user_id && field_of row == field then some row.role else none
]

abbrev role_in : String → String → Dict (Dict String) → Option String
role_in user_id field users = lookup field (perms_of (lookup user_id users))

later : Option String → Option String → Option String
later (some role) before = some role
later none before = before

add_row-role :
    (row : Permission) (user_id field : String) (users : Dict (Dict String))
    → role_in user_id field (add_row row users) ≡ (
        if row.user_id == user_id && field_of row == field
        then some row.role
        else role_in user_id field users)
unfolding add_row
add_row-role row user_id field users = ground (
  arith,
  lookup-insert row.user_id user_id
      (insert (field_of row) row.role (perms_of (lookup row.user_id users))) users,
  lookup-insert (field_of row) field row.role (perms_of (lookup row.user_id users)),
  eq_iff row.user_id user_id,
)

group_rows-role :
    (user_id field : String) (rows : List Permission) (users : Dict (Dict String))
    → role_in user_id field (group_rows users rows)
      ≡ later (granted user_id field rows) (role_in user_id field users)
unfolding group_rows granted later
group_rows-role user_id field [] users = refl
group_rows-role user_id field (row ∷ rows) users = ground (
  arith,
  group_rows-role user_id field rows (add_row row users),
  add_row-role row user_id field users,
  Option-cases (granted user_id field rows),
)

NodupKeys-insert :
    {V : Type 0} (k : String) (v : V) (d : Dict V) → NodupKeys d → NodupKeys (insert k v d)
unfolding insert
NodupKeys-insert k v [] h = (lookup-nil k, tt)
NodupKeys-insert k v ((j, w) ∷ d) h =
    ground (arith, NodupKeys-insert k v d, lookup-insert k j v d, eq_iff j k, eq_iff k j)

group_rows-NodupKeys :
    (rows : List Permission) (users : Dict (Dict String))
    → NodupKeys users
    → NodupKeys (group_rows users rows)
unfolding group_rows add_row
group_rows-NodupKeys [] users h = h
group_rows-NodupKeys (row ∷ rows) users h =
    group_rows-NodupKeys rows (add_row row users) (NodupKeys-insert row.user_id _ users h)

perms_key-eq : (u v : String) → (perms_key u == perms_key v) ≡ (u == v)
perms_key-eq u v = elim (Bool-cases (u == v)) [
  | inl e ↦ ground (arith, eq_iff u v, eq_iff (perms_key u) (perms_key v), ap perms_key)
  | inr e ↦
      ground
        (arith, eq_iff u v, eq_iff (perms_key u) (perms_key v), append_cancel_left "perms:" u v)
]

-- The hash that was last written under a key.
abbrev write : String → (c : Cmd) → Reply c → Option (Dict String) → Option (Dict String)
write key (Cmd.replace_hash k fields) (ok _) before = if k == key then some fields else before
write key (Cmd.replace_hash k fields) (raised _) before = before
write key _ r before = before

abbrev pub stored : String → History → Option (Dict String)
stored key [] = none
stored key ((c, r) ∷ t) = write key c r (stored key t)

-- Redis takes every hash.
abbrev pub Takes : Env → Type 0
Takes env =
    (key : String) (fields : Dict String) (u : History)
    → env u (Cmd.replace_hash key fields) ≡ ok tt

or_before : Option (Dict String) → Option (Dict String) → Option (Dict String)
or_before (some perms) before = some perms
or_before none before = before

sync_users-stored :
    (users : Dict (Dict String)) (user_id : String) (env : Env) (t : History)
    → Takes env
    → NodupKeys users
    → stored (perms_key user_id) (sync_users users env t).1
      ≡ or_before (lookup user_id users) (stored (perms_key user_id) t)
unfolding sync_users lookup running or_before
sync_users-stored [] user_id env t takes h = refl
sync_users-stored ((k, perms) ∷ users) user_id env t takes h =
    let u : History = (Cmd.replace_hash (perms_key k) perms, ok tt) ∷ t in
    ground (
      arith,
      takes (perms_key k) perms t,
      sync_users-stored users user_id env u takes h.1,
      perms_key-eq k user_id,
      eq_iff k user_id,
      Option-cases (lookup user_id users),
    )

unfoldable pub has_row : String → List Permission → Bool
has_row user_id [] = false
has_row user_id (row ∷ rows) = row.user_id == user_id || has_row user_id rows

group_rows-present :
    (user_id : String) (rows : List Permission) (users : Dict (Dict String))
    → lookup user_id (group_rows users rows) ≡ none
    → (has_row user_id rows ≡ false) × (lookup user_id users ≡ none)
unfolding group_rows has_row add_row
group_rows-present user_id [] users h = (refl, h)
group_rows-present user_id (row ∷ rows) users h = ground (
  arith,
  group_rows-present user_id rows (add_row row users) h,
  lookup-insert row.user_id user_id
      (insert (field_of row) row.role (perms_of (lookup row.user_id users))) users,
)

group_rows-absent :
    (user_id : String) (rows : List Permission) (users : Dict (Dict String))
    → has_row user_id rows ≡ false
    → lookup user_id (group_rows users rows) ≡ lookup user_id users
unfolding group_rows has_row add_row
group_rows-absent user_id [] users h = refl
group_rows-absent user_id (row ∷ rows) users h = ground (
  arith,
  group_rows-absent user_id rows (add_row row users),
  lookup-insert row.user_id user_id
      (insert (field_of row) row.role (perms_of (lookup row.user_id users))) users,
)

sync_all-users :
    (rows : List Permission) (user_id : String) (env : Env) (t : History)
    → Takes env
    → stored (perms_key user_id) (sync_all (ok rows) env t).1
      ≡ or_before (lookup user_id (group_rows [] rows)) (stored (perms_key user_id) t)
unfolding sync_all running
sync_all-users rows user_id env t takes = ground (
  arith,
  sync_users-stored (group_rows [] rows) user_id env t takes (group_rows-NodupKeys rows [] tt),
)

-- The database answers the rows, and Redis takes every hash. Then the hash of a user who has a row
-- holds under each field the role that the table gives the user there, and nothing else; the hash of
-- a user without a row stays what it was.
pub sync_all-stored :
    (rows : List Permission) (user_id : String) (env : Env) (t : History)
    → Takes env
    → let hash = stored (perms_key user_id) (sync_all (ok rows) env t).1 in
      ((has_row user_id rows ≡ true)
        × (perms : Dict String) × (hash ≡ some perms)
        × ((field : String) → lookup field perms ≡ granted user_id field rows))
      ⊎ ((has_row user_id rows ≡ false) × (hash ≡ stored (perms_key user_id) t))
unfolding or_before later
sync_all-stored rows user_id env t takes =
    let written = sync_all-users rows user_id env t takes in
    elim (Option-cases (lookup user_id (group_rows [] rows))) [
      | inl missing ↦ inr ((group_rows-present user_id rows [] missing).0, ground (arith, written))
      | inr (perms, found) ↦ inl (
        ground (arith, group_rows-absent user_id rows [], lookup-nil {V = Dict String} user_id),
        perms,
        ground (arith, written),
        λ field. ground (
          arith,
          group_rows-role user_id field rows [],
          lookup-nil {V = Dict String} user_id,
          lookup-nil {V = String} field,
          Option-cases (granted user_id field rows),
        ),
      )
    ]
