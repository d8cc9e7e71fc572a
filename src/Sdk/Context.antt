-- ===== src/Sdk/Context.antt =====
-- The context of an app in sdk/belgrade_sdk/context.py, and its database session.
use Prim.Native.Char.{code}
use belgrade_os.Base.{
  ℕ, String, ◌<>◌, Bool, Option, none, some, [], ◌∷◌, if◌then◌else◌, is_empty, nat_eq, ltb, ◌+◌,
}
use belgrade_os.Wire.{Json, null, str}
use belgrade_os.World.{ok, raised, runtime_error, Cmd}
use belgrade_os.Prog.{Prog, History, pure, raise, ◌>>◌}
use belgrade_os.Calls.{db_session, db_execute, db_close}

-- The engine and the pool are there or not.
pub record Context : Type 0 where
  pub app_id : String
  pub user_id : Option String
  pub tenant_id : Option String
  pub trace_id : String
  pub bridge_url : String
  pub has_db : Bool
  pub has_redis : Bool
  pub notification_driver : String

-- `value or ""`
abbrev pub or_empty : Option String → String
or_empty none = ""
or_empty (some s) = s

abbrev pub opt_json : Option String → Json
opt_json none = null
opt_json (some s) = str s

unfoldable pub need_redis : Context → Prog Unit
need_redis ctx =
    if ctx.has_redis
    then pure tt
    else raise (record { fault = runtime_error; text = "Redis pool not initialized in AppContext" })

-- `s.replace("-", "_")`
unfoldable pub underscored : String → String
underscored String.[] = ""
underscored (String.◌∷◌ c s) =
    let rest = underscored s in if nat_eq (code c) b'-' then "_" <> rest else String.◌∷◌ c rest

unfoldable pub schema_name : String → String → String
unfolding underscored
schema_name tenant_id app_id = "app_" <> underscored tenant_id <> "_" <> underscored app_id

-- The sessions that were made, in all contexts.
abbrev pub sessions : History → ℕ
sessions [] = 0
sessions ((Cmd.db_session, ok _) ∷ t) = sessions t + 1
sessions (_ ∷ t) = sessions t

-- `self._db_session` is set: one was made since the context was, when there were `before`.
abbrev pub has_session : ℕ → History → Bool
has_session before t = ltb before (sessions t)

abbrev search_path : String → String
search_path schema = "SET search_path TO " <> schema <> ", public"

-- `if self.tenant_id`
abbrev scope_session : Context → Prog Unit
scope_session ctx =
    if is_empty (or_empty ctx.tenant_id)
    then pure tt
    else db_execute (search_path (schema_name (or_empty ctx.tenant_id) ctx.app_id))

-- AppContext.db
unfoldable pub db : Context → ℕ → Prog Unit
db ctx before env t =
    if ctx.has_db
    then (if has_session before t then (ok tt, t) else (db_session >> scope_session ctx) env t)
    else (
      raised (record { fault = runtime_error; text = "Database not configured for this app." }),
      t,
    )

-- AppContext.cleanup
unfoldable pub cleanup : ℕ → Prog Unit
cleanup before env t = if has_session before t then db_close env t else (ok tt, t)
