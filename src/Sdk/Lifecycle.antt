-- ===== src/Sdk/Lifecycle.antt =====
-- `BelgradeApp` of sdk/belgrade_sdk/app.py from its creation to its end, with defaults.py.
use mathlib.Core.List.{append-nil}
use belgrade_os.Base.{
  String, ◌<>◌, ◌==◌, ◌≡◌, refl, sym, ◌⊎◌, inl, inr, append_assoc, ◌||◌, Bool, true, false, Option,
  none, some, Option-cases, List, [], ◌∷◌, ◌++◌, if◌then◌else◌, is_empty, arith, eq_iff,
}
use belgrade_os.Base.Dict.{lookup, keys, lookup-insert, lookup-nil}
use belgrade_os.Wire.{Json, str, arr, obj, Items, nil, item, end, member, get_member}
use belgrade_os.World.{Exn, Result, Result-cases, ok, raised, Cmd}
use belgrade_os.Prog.{Prog, pure, lift, ◌>>◌, Env, History}
use belgrade_os.Calls.{running, aclose}
use belgrade_os.Codec.{Codec}
use belgrade_os.Sdk.App.{
  App, Tool, Handler, ToolDefinition, full_name, input_schema, handlers_of, register_tool, on_event,
  texts, definitions_json, registration, register_with_bridge,
}

-- The constants of defaults.py, and the two variables that the constructor reads.
pub record Defaults : Type 0 where
  pub bridge_url : String
  pub db_url : Option String
  pub callback_url : String
  pub redis_url : String
  pub notification_driver : Option String
  pub mcp_enabled : Option String

abbrev pub given_or : String → Option String → String
given_or default none = default
given_or default (some s) = s

abbrev is_true : Option String → Bool
is_true none = false
is_true (some s) = s == "true"

-- BelgradeApp.__init__
unfoldable pub new_app : Defaults → String → Option String → App
new_app d app_id bridge_url = record {
  app_id = app_id;
  tools = [];
  tool_definitions = [];
  event_handlers = [];
  bridge_url = given_or d.bridge_url bridge_url;
  callback_url = d.callback_url;
  mcp_enabled = is_true d.mcp_enabled;
  has_db = false;
  has_redis = false;
  notification_driver = given_or "ntfy" d.notification_driver;
}

-- a use of one of the two decorators
pub data Registration : Type 0 where
  tool : String → String → Option String → List String → Tool → Registration
  event : String → Handler → Registration

abbrev pub is_given : Option String → Bool
is_given none = false
is_given (some url) = if is_empty url then false else true

module _ (c : Codec) where
  unfoldable pub register : Registration → App → App
  register (tool name description mcp_hint parameters func) app =
      register_tool c name description mcp_hint parameters func app
  register (event topic handler) app = on_event c topic handler app

  -- the module of an app, from its first decorator to its last
  unfoldable pub register_all : List Registration → App → App
  register_all [] app = app
  register_all (r ∷ rs) app = register_all rs (register r app)

  -- GET /health
  unfoldable pub health : App → Json
  health app = obj (
      member "status" (str "ok") (
        member "app_id" (str app.app_id) (
          member "tools" (arr (texts c (keys app.tools)))
            (member "subscriptions" (arr (texts c (keys app.event_handlers))) end))))

  abbrev pub connected : Defaults → App → App
  connected d app = record app {
    has_db = is_given d.db_url;
    has_redis = is_given (some d.redis_url);
  }

  abbrev made_if : Bool → Result (Unit {0}) → Result (Unit {0})
  made_if b r = if b then r else ok tt

  -- What becomes of the two clients: of the database's engine, and then of the pool of Redis.
  abbrev pub clients : Result (Unit {0}) → Result (Unit {0}) → App → Result (Unit {0})
  clients engine pool app = elim (made_if app.has_db engine) [
    | ok _ ↦ made_if app.has_redis pool
    | raised x ↦ raised x
  ]

  -- `on_startup`: the clients are made, and the app is announced. What the making of the engine and
  -- of the pool gives is the libraries' answer.
  unfoldable pub on_startup : Result (Unit {0}) → Result (Unit {0}) → Defaults → App → Prog App
  on_startup engine pool d app = do
    lift (clients engine pool (connected d app))
    register_with_bridge c (connected d app)
    pure (connected d app)

  unfoldable pub on_shutdown : App → Prog Unit
  on_shutdown app = do
    if app.has_db then aclose "db_engine" else pure tt
    if app.has_redis then aclose "redis" else pure tt

-- The function that was registered last under a name.
abbrev pub registered : String → String → List Registration → Option Tool
registered app_id full [] = none
registered app_id full (event topic handler ∷ rs) = registered app_id full rs
registered app_id full (tool name description mcp_hint parameters func ∷ rs) =
    elim (registered app_id full rs) [
      | some found ↦ some found
      | none ↦ if full_name app_id name == full then some func else none
    ]

-- The handlers of a topic in the order of their registration.
abbrev pub subscribed : String → List Registration → List Handler
subscribed topic [] = []
subscribed topic (tool _ _ _ _ _ ∷ rs) = subscribed topic rs
subscribed topic (event named handler ∷ rs) =
    if named == topic then handler ∷ subscribed topic rs else subscribed topic rs

-- The name of this tool.
abbrev is_named : String → Json → Bool
is_named name (obj ms) = elim (get_member "name" ms) [ some (str s) ↦ s == name | _ ↦ false ]
is_named name _ = false

abbrev pub one_named : String → Items → Bool
one_named name nil = false
one_named name (item v vs) = is_named name v || one_named name vs

abbrev listed_in : String → Option Json → Bool
listed_in name (some (arr vs)) = one_named name vs
listed_in name _ = false

-- A tool of this name is among the tools of the body of a registration.
abbrev pub offers : String → Json → Bool
offers name (obj ms) = listed_in name (get_member "tools" ms)
offers name _ = false

abbrev pub is_there : {A : Type 0} → Option A → Bool
is_there none = false
is_there (some _) = true

later : Option Tool → Option Tool → Option Tool
later (some func) before = some func
later none before = before

module _ (c : Codec) where
  one_named-append :
      (name : String) (ds es : List ToolDefinition)
      → one_named name (definitions_json c (ds ++ es))
        ≡ (one_named name (definitions_json c ds) || one_named name (definitions_json c es))
  unfolding get_member
  one_named-append name [] es = refl
  one_named-append name (d ∷ ds) es = ground (arith, one_named-append name ds es)

  abbrev AreOffered : App → Type 0
  AreOffered app =
      (name : String)
      → one_named name (definitions_json c app.tool_definitions) ≡ is_there (lookup name app.tools)

  register-AreOffered :
      (r : Registration) (app : App) → AreOffered app → AreOffered (register c r app)
  unfolding register register_tool on_event get_member
  register-AreOffered (event topic handler) app h name = h name
  register-AreOffered (tool n description mcp_hint parameters func) app h name = ground (
    arith,
    h name,
    one_named-append name app.tool_definitions (
        record {
          name = full_name app.app_id n;
          description = description;
          input_schema_json = c.dumps (input_schema parameters);
          mcp_hint = mcp_hint;
        }
        ∷ []),
    lookup-insert (full_name app.app_id n) name func app.tools,
  )

  register_all-AreOffered :
      (rs : List Registration) (app : App) → AreOffered app → AreOffered (register_all c rs app)
  unfolding register_all
  register_all-AreOffered [] app h = h
  register_all-AreOffered (r ∷ rs) app h =
      register_all-AreOffered rs (register c r app) (register-AreOffered r app h)

  register_all-app_id :
      (rs : List Registration) (app : App) → (register_all c rs app).app_id ≡ app.app_id
  unfolding register_all register register_tool on_event
  register_all-app_id [] app = refl
  register_all-app_id (tool n d m p f ∷ rs) app =
      register_all-app_id rs (register c (tool n d m p f) app)
  register_all-app_id (event topic handler ∷ rs) app =
      register_all-app_id rs (register c (event topic handler) app)

  register_all-tools :
      (rs : List Registration) (app : App) (name : String)
      → lookup name (register_all c rs app).tools
        ≡ later (registered app.app_id name rs) (lookup name app.tools)
  unfolding register_all register register_tool on_event later
  register_all-tools [] app name = refl
  register_all-tools (event topic handler ∷ rs) app name =
      register_all-tools rs (register c (event topic handler) app) name
  register_all-tools (tool n d m p f ∷ rs) app name = ground (
    arith,
    register_all-tools rs (register c (tool n d m p f) app) name,
    lookup-insert (full_name app.app_id n) name f app.tools,
    Option-cases (registered app.app_id name rs),
  )

  register_all-handlers :
      (rs : List Registration) (app : App) (topic : String)
      → handlers_of (lookup topic (register_all c rs app).event_handlers)
        ≡ handlers_of (lookup topic app.event_handlers) ++ subscribed topic rs
  unfolding register_all register register_tool on_event
  register_all-handlers [] app topic = sym (append-nil _)
  register_all-handlers (tool n d m p f ∷ rs) app topic =
      register_all-handlers rs (register c (tool n d m p f) app) topic
  register_all-handlers (event named handler ∷ rs) app topic = ground (
    arith,
    register_all-handlers rs (register c (event named handler) app) topic,
    lookup-insert named topic (handlers_of (lookup named app.event_handlers) ++ handler ∷ [])
        app.event_handlers,
    append_assoc (handlers_of (lookup named app.event_handlers)) (handler ∷ [])
        (subscribed topic rs),
    eq_iff named topic,
  )

  -- The Bridge was sent this body by one POST, which may have failed.
  abbrev pub Announced : App → Json → History → History → Type 0
  Announced app body t t' =
      (reply : Result Json) × (t'
        ≡ (Cmd.http_post (app.bridge_url <> "/v1/register") body, reply) ∷ t)

  on_startup-Announced :
      (engine pool : Result (Unit {0})) (d : Defaults) (app : App) (env : Env) (t : History)
      → clients c engine pool (connected c d app) ≡ ok tt
      → let (r, t') = on_startup c engine pool d app env t in
        (r ≡ ok (connected c d app))
        × Announced (connected c d app) (registration c (connected c d app)) t t'
  unfolding on_startup register_with_bridge running
  on_startup-Announced engine pool d app env t made =
      let post =
        Cmd.http_post ((connected c d app).bridge_url <> "/v1/register")
          (registration c (connected c d app)) in
      elim (Result-cases (
        env t (
          Cmd.http_post ((connected c d app).bridge_url <> "/v1/register")
            (registration c (connected c d app))))) [
              | inl (reply, e) ↦ (ground (arith, e, made), (ok reply, ground (arith, e, made)))
              | inr (x, e) ↦ (ground (arith, e, made), (raised x, ground (arith, e, made)))
            ]

  -- What the start has made of an app.
  abbrev pub IsStarted : String → List Registration → Result App × History → History → Type 0
  IsStarted app_id rs (r, t') t =
      (app : App) × (body : Json) × (r ≡ ok app)
      × Announced app body t t'
      × ((name : String) → offers name body ≡ is_there (lookup name app.tools))
      × ((name : String) → lookup name app.tools ≡ registered app_id name rs)
      × ((topic : String) → handlers_of (lookup topic app.event_handlers) ≡ subscribed topic rs)

  -- An app is made, set up by any decorators in any order, and started. If the engine or the pool of
  -- Redis cannot be made, the start raises that exception without any call. Else it succeeds after
  -- one POST, whatever the Bridge answers. A name is among the tools in the body of that POST exactly
  -- if POST /execute finds a function under it, and that is the function that was registered last
  -- under it; and the handlers of a topic are those that were registered for it, in that order.
  pub on_startup-offers :
      (engine pool : Result (Unit {0})) (d : Defaults) (app_id : String)
      (bridge_url : Option String) (rs : List Registration) (env : Env) (t : History)
      → let app = register_all c rs (new_app d app_id bridge_url) in
        let (r, t') = on_startup c engine pool d app env t in
        ((x : Exn) × (clients c engine pool (connected c d app) ≡ raised x)
          × (r ≡ raised x)
          × (t' ≡ t))
        ⊎ ((clients c engine pool (connected c d app) ≡ ok tt) × IsStarted app_id rs (r, t') t)
  unfolding new_app later get_member on_startup running
  on_startup-offers engine pool d app_id bridge_url rs env t =
      let made = new_app d app_id bridge_url in
      let app = register_all c rs made in
      elim (Result-cases (clients c engine pool (connected c d app))) [
        | inr (x, e) ↦ inl (x, e, ground (arith, e), ground (arith, e))
        | inl (_, e) ↦
            let (started, announced) = on_startup-Announced engine pool d app env t e in
            inr (
              e,
              (
                connected c d app,
                registration c (connected c d app),
                started,
                announced,
                register_all-AreOffered rs made
                    (λ name. ground (arith, lookup-nil {V = Tool} name)),
                λ name. ground (
                  arith,
                  register_all-tools rs made name,
                  lookup-nil {V = Tool} name,
                  Option-cases (registered app_id name rs),
                ),
                λ topic. ground (
                  arith,
                  register_all-handlers rs made topic,
                  lookup-nil {V = List Handler} topic,
                ),
              ),
            )
      ]
