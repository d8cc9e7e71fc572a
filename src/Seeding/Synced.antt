-- ===== src/Seeding/Synced.antt =====
-- What the script grants, and what a synchronisation makes of it.
use Prim.Native.Char.{code}
use text.Mathlib.TextLemmas.{append_cancel_left, nil-append, cons-append}
use belgrade_os.Base.{
  String, ◌<>◌, ◌==◌, ◌≡◌, refl, ap, sym, subst, ◌⊎◌, inl, inr, nat_eq, Bool, Bool-cases, true,
  false, ◌&&◌, ◌||◌, Option, Option-cases, none, some, List, [], ◌∷◌, ◌++◌, map, if◌then◌else◌,
  arith, eq_iff,
}
use belgrade_os.Base.Dict.{Dict, lookup}
use belgrade_os.Wire.{Json}
use belgrade_os.World.{Exn, Result, Result-cases, ok, raised}
use belgrade_os.Prog.{Env, History}
use belgrade_os.Codec.{Codec}
use belgrade_os.Platform.Permissions.{Permission, perms_key, field_of, sync_all}
use belgrade_os.Platform.Permissions.Grants.{granted, has_row, stored, Takes, sync_all-stored}
use belgrade_os.Platform.Untrusted.{app_of}
use belgrade_os.Seeding.{
  Database, has_key, with_role, upsert_row, admin, discover_apps, insert_row, insert_apps,
  insert_users, transaction, seed,
}

abbrev is_key : String → String → String → Permission → Bool
is_key user app_id bundle row =
    row.user_id == user && row.app_id == app_id && row.bundle_id == bundle

-- The role that the table gives a user for a bundle of an app.
abbrev pub role_of : String → String → String → List Permission → Option String
role_of user app_id bundle [] = none
role_of user app_id bundle (row ∷ rows) = elim (role_of user app_id bundle rows) [
  | some role ↦ some role
  | none ↦ if is_key user app_id bundle row then some row.role else none
]

-- Some pair is bound to these two texts.
abbrev is_text_of : Database → String → Json → Bool
is_text_of db s v = elim (db.bind v) [ ok bound ↦ bound == s | raised x ↦ false ]

abbrev pub names : Database → String → String → List (Json × Json) → Bool
names db app_id bundle [] = false
names db app_id bundle ((app, b) ∷ pairs) =
    (is_text_of db app_id app && is_text_of db bundle b) || names db app_id bundle pairs

module _ (user app_id bundle : String) where
  role_of-map :
      (row : Permission) (rows : List Permission)
      → role_of user app_id bundle (map (with_role row) rows) ≡ (
          if is_key user app_id bundle row
          then if has_key row rows then some row.role else none
          else role_of user app_id bundle rows)
  unfolding has_key
  role_of-map row [] = ground arith
  role_of-map row (other ∷ rows) = ground (
    arith,
    role_of-map row rows,
    Option-cases (role_of user app_id bundle rows),
    eq_iff row.user_id other.user_id,
    eq_iff row.app_id other.app_id,
    eq_iff row.bundle_id other.bundle_id,
    eq_iff row.user_id user,
    eq_iff row.app_id app_id,
    eq_iff row.bundle_id bundle,
    eq_iff other.user_id user,
    eq_iff other.app_id app_id,
    eq_iff other.bundle_id bundle,
  )

  role_of-append :
      (row : Permission) (rows : List Permission)
      → role_of user app_id bundle (rows ++ row ∷ [])
        ≡ (if is_key user app_id bundle row then some row.role else role_of user app_id bundle rows)
  role_of-append row [] = ground arith
  role_of-append row (other ∷ rows) =
      ground (arith, role_of-append row rows, Option-cases (role_of user app_id bundle rows))

  role_of-upsert_row :
      (row : Permission) (rows : List Permission)
      → role_of user app_id bundle (upsert_row row rows)
        ≡ (if is_key user app_id bundle row then some row.role else role_of user app_id bundle rows)
  unfolding upsert_row
  role_of-upsert_row row rows =
      ground (arith, role_of-map row rows, role_of-append row rows, Bool-cases (has_key row rows))

  insert_row-role :
      (db : Database) (granter : String) (app b : Json) (rows after : List Permission)
      → insert_row db granter (app, b) rows ≡ ok after
      → role_of user app_id bundle after ≡ (
          if granter == user && (is_text_of db app_id app && is_text_of db bundle b)
          then some "admin"
          else role_of user app_id bundle rows)
  unfolding insert_row
  insert_row-role db granter app b rows after h = elim (Result-cases (db.bind app)) [
    | inr (x, e) ↦ absurd (ground (arith, e))
    | inl (a, e) ↦ elim (Result-cases (db.bind b)) [
      | inr (x, f) ↦ absurd (ground (arith, e, f))
      | inl (n, f) ↦ elim (Result-cases (db.insert (admin granter a n))) [
        | inr (x, g) ↦ absurd (ground (arith, e, f, g))
        | inl (_, g) ↦ ground (arith, e, f, g, role_of-upsert_row (admin granter a n) rows)
      ]
    ]
  ]

  insert_apps-role :
      (db : Database) (granter : String) (pairs : List (Json × Json)) (rows after : List Permission)
      → insert_apps db granter pairs rows ≡ ok after
      → role_of user app_id bundle after ≡ (
          if granter == user && names db app_id bundle pairs
          then some "admin"
          else role_of user app_id bundle rows)
  unfolding insert_apps
  insert_apps-role db granter [] rows after h = ground arith
  insert_apps-role db granter ((app, b) ∷ pairs) rows after h =
      elim (Result-cases (insert_row db granter (app, b) rows)) [
        | inr (x, e) ↦ absurd (ground (arith, e))
        | inl (next, e) ↦ ground (
          arith,
          e,
          insert_row-role db granter app b rows next e,
          insert_apps-role db granter pairs next after,
        )
      ]

unfoldable pub has_colon : String → Bool
has_colon String.[] = false
has_colon (String.◌∷◌ c s) = nat_eq (code c) b':' || has_colon s

colon_first : (b : String) → app_of (":" <> b) ≡ ""
unfolding app_of
colon_first b = subst (λ s. app_of s ≡ "") (sym (cons-append ":" "" b)) refl

app_of-joined : (a b : String) → has_colon a ≡ false → app_of (a <> ":" <> b) ≡ a
unfolding app_of has_colon
app_of-joined String.[] b h =
    subst (λ s. app_of s ≡ "") (sym (nil-append (":" <> b))) (colon_first b)
app_of-joined (String.◌∷◌ c s) b h =
    subst (λ x. app_of x ≡ String.◌∷◌ c s) (sym (cons-append c s (":" <> b)))
      (ground (arith, app_of-joined s b))

-- No app id of the rows has a colon.
abbrev pub HaveNoColon : List Permission → Type 0
HaveNoColon [] = Unit
HaveNoColon (row ∷ rows) = (has_colon row.app_id ≡ false) × HaveNoColon rows

-- Without colons in the app ids a field of the hash says which app and bundle it is of.
field_iff :
    (row : Permission) (app_id bundle : String)
    → has_colon row.app_id ≡ false
    → has_colon app_id ≡ false
    → (field_of row == (app_id <> ":" <> bundle))
      ≡ (row.app_id == app_id && row.bundle_id == bundle)
field_iff row app_id bundle h k = elim (Bool-cases (field_of row == (app_id <> ":" <> bundle))) [
  | inr e ↦ ground (
    arith,
    e,
    eq_iff (field_of row) (app_id <> ":" <> bundle),
    eq_iff row.app_id app_id,
    eq_iff row.bundle_id bundle,
  )
  | inl e ↦
      let same : field_of row ≡ app_id <> ":" <> bundle =
        (eq_iff (field_of row) (app_id <> ":" <> bundle)).0 e in
      let same_app : row.app_id ≡ app_id = ground (
        arith,
        ap app_of same,
        app_of-joined row.app_id row.bundle_id h,
        app_of-joined app_id bundle k,
      ) in
      let under : app_id <> ":" <> row.bundle_id ≡ app_id <> ":" <> bundle =
        subst (λ a. a <> ":" <> row.bundle_id ≡ app_id <> ":" <> bundle) same_app same in
      let same_bundle =
        append_cancel_left ":" row.bundle_id bundle
          (append_cancel_left app_id (":" <> row.bundle_id) (":" <> bundle) under) in
      ground
        (arith, e, same_app, same_bundle, eq_iff row.app_id app_id, eq_iff row.bundle_id bundle)
]

granted-role_of :
    (user app_id bundle : String) (rows : List Permission)
    → HaveNoColon rows
    → has_colon app_id ≡ false
    → granted user (app_id <> ":" <> bundle) rows ≡ role_of user app_id bundle rows
unfolding granted
granted-role_of user app_id bundle [] h k = refl
granted-role_of user app_id bundle (row ∷ rows) h k =
    ground (arith, granted-role_of user app_id bundle rows h.1 k, field_iff row app_id bundle h.0 k)

granted-has_row :
    (user field : String) (rows : List Permission)
    → has_row user rows ≡ false
    → granted user field rows ≡ none
unfolding granted has_row
granted-has_row user field [] h = refl
granted-has_row user field (row ∷ rows) h = ground (arith, granted-has_row user field rows)

-- The outcome of the script: an exception, and the table is as before; or every pair that the
-- manifests name is granted to the one user, and nothing else has changed.
abbrev pub IsSeeded :
    Codec
    → Database
    → List (Result String)
    → List Permission
    → Result (Unit {0}) × List Permission
    → Type 0
IsSeeded c db files rows end =
    ((x : Exn) × (end ≡ (raised x, rows)))
    ⊎ ((pairs : List (Json × Json)) × (discover_apps c files ≡ ok pairs)
        × (end.0 ≡ ok tt)
        × ((user app_id bundle : String)
            → role_of user app_id bundle end.1 ≡ (
                if "ivan@example.com" == user && names db app_id bundle pairs
                then some "admin"
                else role_of user app_id bundle rows)))

-- The script either raises, and the table is as before, or it ends, every manifest was read, the
-- role of an administrator is granted to its one user for every bundle that a manifest names, and no
-- other role is changed.
pub seed-IsSeeded :
    (c : Codec) (db : Database) (files : List (Result String)) (rows : List Permission)
    → IsSeeded c db files rows (seed db c files rows)
unfolding seed transaction insert_users
seed-IsSeeded c db files rows = elim (Result-cases db.begin) [
  | inr (x, e) ↦ inl (x, ground (arith, e))
  | inl (_, e) ↦ elim (Result-cases (discover_apps c files)) [
    | inr (x, f) ↦ inl (x, ground (arith, e, f))
    | inl (pairs, f) ↦ elim (Result-cases (insert_apps db "ivan@example.com" pairs rows)) [
      | inr (x, g) ↦ inl (x, ground (arith, e, f, g))
      | inl (after, g) ↦ elim (Result-cases db.commit) [
        | inr (x, k) ↦ inl (x, ground (arith, e, f, g, k))
        | inl (_, k) ↦
            let ends : seed db c files rows ≡ (ok tt, after) = ground (arith, e, f, g, k) in
            inr (
              pairs,
              f,
              ap (λ p. p.0) ends,
              λ user app_id bundle. ground (
                arith,
                ends,
                insert_apps-role user app_id bundle db "ivan@example.com" pairs rows after g,
              ),
            )
      ]
    ]
  ]
]

-- The rows are those of the table, in any order.
abbrev pub ShowsRoles : List Permission → List Permission → Type 0
ShowsRoles answered rows =
    (user app_id bundle : String)
    → role_of user app_id bundle answered ≡ role_of user app_id bundle rows

-- The hash of the user gives the role of an administrator under the field.
abbrev pub IsAdmin : String → Option (Dict String) → Type 0
IsAdmin field hash =
    (perms : Dict String) × (hash ≡ some perms) × (lookup field perms ≡ some "admin")

synced :
    (answered : List Permission) (user app_id bundle : String) (env : Env) (t : History)
    → HaveNoColon answered
    → has_colon app_id ≡ false
    → Takes env
    → role_of user app_id bundle answered ≡ some "admin"
    → IsAdmin (app_id <> ":" <> bundle) (stored (perms_key user) (sync_all (ok answered) env t).1)
synced answered user app_id bundle env t plain k takes role =
    let field = app_id <> ":" <> bundle in
    let same = granted-role_of user app_id bundle answered plain k in
    elim (sync_all-stored answered user env t takes) [
      | inl (present, perms, found, roles) ↦ (perms, found, ground (arith, roles field, same, role))
      | inr (absent, kept) ↦
          absurd (ground (arith, granted-has_row user field answered absent, same, role))
    ]

-- The manifests are read, and one of them names a bundle of an app. The script runs, and after it a
-- synchronisation is answered rows that give every user the roles of the table; no app id, in those
-- rows or of this bundle, has a colon, and Redis takes every hash. Then the script raised and left
-- the table as it was, or the hash of its one user holds the role of an administrator under the
-- field of the bundle.
pub seed-synced :
    (c : Codec) (db : Database) (files : List (Result String)) (rows : List Permission)
    (pairs : List (Json × Json)) (app_id bundle : String) (answered : List Permission)
    → discover_apps c files ≡ ok pairs
    → names db app_id bundle pairs ≡ true
    → ShowsRoles answered (seed db c files rows).1
    → HaveNoColon answered
    → has_colon app_id ≡ false
    → (env : Env) (t : History) → Takes env
    → ((x : Exn) × (seed db c files rows ≡ (raised x, rows)))
      ⊎ IsAdmin
          (app_id <> ":" <> bundle)
          (stored (perms_key "ivan@example.com") (sync_all (ok answered) env t).1)
seed-synced c db files rows pairs app_id bundle answered found named shows plain k env t takes =
    elim (seed-IsSeeded c db files rows) [
      | inl (x, e) ↦ inl (x, e)
      | inr (others, discovered, done, roles) ↦ inr (
          synced answered "ivan@example.com" app_id bundle env t plain k takes (
            ground (
              arith,
              found,
              discovered,
              named,
              shows "ivan@example.com" app_id bundle,
              roles "ivan@example.com" app_id bundle,
              eq_iff "ivan@example.com" "ivan@example.com",
            )))
    ]
