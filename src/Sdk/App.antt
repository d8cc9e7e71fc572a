-- ===== src/Sdk/App.antt =====
-- `BelgradeApp` of sdk/belgrade_sdk/app.py: registration of tools and handlers, the routes, and the
-- registration with the Bridge. A tool and a handler are arbitrary programs.
use belgrade_os.Base.{
  ℕ, String, ◌<>◌, ◌==◌, Bool, true, false, Option, none, some, List, [], ◌∷◌, ◌++◌, if◌then◌else◌,
}
use belgrade_os.Base.Dict.{Dict, lookup, insert, keys}
use belgrade_os.Wire.{Json, bool, str, arr, obj, Items, nil, item, Members, end, member}
use belgrade_os.World.{Exn, Result, ok, raised, type_error}
use belgrade_os.Prog.{Prog, pure, lift, try_except, try_finally, ◌>>=◌, ◌>>◌}
use belgrade_os.Calls.{http_post}
use belgrade_os.Codec.{Codec}
use belgrade_os.Sdk.Context.{Context, opt_json, cleanup, sessions}

-- What a call of a tool gets: the context, how many sessions there were before it, and the arguments.
abbrev pub Tool : Type 0
Tool = Context → ℕ → Members → Prog Json

abbrev pub Handler : Type 0
Handler = Context → ℕ → Json → Prog Unit

pub record ToolDefinition : Type 0 where
  pub name : String
  pub description : String
  pub input_schema_json : String
  pub mcp_hint : Option String

pub record ExecuteRequest : Type 0 where
  pub tool_name : String
  pub input_json : String
  pub trace_id : String
  pub user_id : Option String
  pub tenant_id : Option String

pub record ExecuteResponse : Type 0 where
  pub success : Bool
  pub output_json : String
  pub error : String

pub record EventPayload : Type 0 where
  pub topic : String
  pub payload : Json
  pub app_id : Option String
  pub tenant_id : Option String
  pub trace_id : String

pub record App : Type 0 where
  pub app_id : String
  pub tools : Dict Tool
  pub tool_definitions : List ToolDefinition
  pub event_handlers : Dict (List Handler)
  pub bridge_url : String
  pub callback_url : String
  pub mcp_enabled : Bool
  pub has_db : Bool
  pub has_redis : Bool
  pub notification_driver : String

-- `"properties"`: a text for each parameter but the context
abbrev properties : List String → Members
properties [] = end
properties (name ∷ names) =
    let rest = properties names in
    if name == "ctx" then rest else member name (obj (member "type" (str "string") end)) rest

abbrev pub input_schema : List String → Json
input_schema parameters =
    obj (member "type" (str "object") (member "properties" (obj (properties parameters)) end))

abbrev pub full_name : String → String → String
full_name app_id name = app_id <> ":" <> name

abbrev pub handlers_of : Option (List Handler) → List Handler
handlers_of none = []
handlers_of (some handlers) = handlers

abbrev pub not_found : String → ExecuteResponse
not_found tool_name = record {
  success = false;
  output_json = "";
  error = "Tool " <> tool_name <> " not found";
}

abbrev pub failed : Exn → ExecuteResponse
failed exc = record { success = false; output_json = ""; error = exc.text }

abbrev pub succeeded : String → ExecuteResponse
succeeded output_json = record { success = true; output_json = output_json; error = "" }

-- `**kwargs` takes a mapping.
abbrev pub mapping : Json → Result Members
mapping (obj ms) = ok ms
mapping _ = raised (record { fault = type_error; text = "argument after ** must be a mapping" })

module _ (c : Codec) where
  -- The decorator of `BelgradeApp.tool`, for a function with these parameters.
  unfoldable pub register_tool : String → String → Option String → List String → Tool → App → App
  unfolding insert
  register_tool name description mcp_hint parameters func app = record app {
    tools = insert (full_name app.app_id name) func app.tools;
    tool_definitions =
        app.tool_definitions
        ++ record {
          name = full_name app.app_id name;
          description = description;
          input_schema_json = c.dumps (input_schema parameters);
          mcp_hint = mcp_hint;
        }
          ∷ [];
  }

  -- The decorator of `BelgradeApp.on_event`.
  unfoldable pub on_event : String → Handler → App → App
  unfolding insert lookup
  on_event topic handler app = record app {
    event_handlers =
        insert topic (handlers_of (lookup topic app.event_handlers) ++ handler ∷ [])
          app.event_handlers;
  }

  unfoldable pub build_context : App → Option String → Option String → String → Context
  build_context app user_id tenant_id trace_id = record {
    app_id = app.app_id;
    user_id = user_id;
    tenant_id = tenant_id;
    trace_id = trace_id;
    bridge_url = app.bridge_url;
    has_db = app.has_db;
    has_redis = app.has_redis;
    notification_driver = app.notification_driver;
  }

  unfoldable pub call_tool : Tool → Context → ℕ → String → Prog ExecuteResponse
  call_tool func ctx before input_json =
      try_except
        (do
          value ← lift (c.loads input_json)
          kwargs ← lift (mapping value)
          result ← func ctx before kwargs
          pure (succeeded (c.dumps result)))
        (λ exc. pure (failed exc))

  abbrev pub context_of : App → ExecuteRequest → Context
  context_of app req = build_context app req.user_id req.tenant_id req.trace_id

  -- the route of a tool that was found
  unfoldable pub execute_with : App → ExecuteRequest → Tool → Prog ExecuteResponse
  execute_with app req func env t =
      try_finally (call_tool func (context_of app req) (sessions t) req.input_json)
        (cleanup (sessions t)) env t

  abbrev pub execute_found : App → ExecuteRequest → Option Tool → Prog ExecuteResponse
  execute_found app req none = pure (not_found req.tool_name)
  execute_found app req (some func) = execute_with app req func

  -- POST /execute
  unfoldable pub execute : App → ExecuteRequest → Prog ExecuteResponse
  unfolding lookup
  execute app req = execute_found app req (lookup req.tool_name app.tools)

  -- `for handler in …`
  unfoldable pub run_handlers : List Handler → Context → ℕ → Json → Prog Unit
  run_handlers [] ctx before payload = pure tt
  run_handlers (handler ∷ handlers) ctx before payload =
      handler ctx before payload >> run_handlers handlers ctx before payload

  unfoldable pub handle_with : App → EventPayload → List Handler → Prog Unit
  handle_with app event handlers env t =
      try_finally
        (try_except
          (run_handlers handlers (build_context app none event.tenant_id event.trace_id)
            (sessions t) event.payload)
          (λ exc. pure tt))
        (cleanup (sessions t)) env t

  abbrev handle_found : App → EventPayload → Option (List Handler) → Prog Unit
  handle_found app event none = pure tt
  handle_found app event (some handlers) = handle_with app event handlers

  -- POST /events
  unfoldable pub handle_event : App → EventPayload → Prog Unit
  unfolding lookup
  handle_event app event = handle_found app event (lookup event.topic app.event_handlers)

  abbrev definition_json : ToolDefinition → Json
  definition_json d = obj (
      member "name" (str d.name) (
        member "description" (str d.description) (
          member "input_schema_json" (str d.input_schema_json)
            (member "mcp_hint" (opt_json d.mcp_hint) end))))

  abbrev pub definitions_json : List ToolDefinition → Items
  definitions_json [] = nil
  definitions_json (d ∷ ds) = item (definition_json d) (definitions_json ds)

  abbrev pub texts : List String → Items
  texts [] = nil
  texts (s ∷ ss) = item (str s) (texts ss)

  abbrev pub registration : App → Json
  registration app = obj (
      member "app_id" (str app.app_id) (
        member "callback_url" (str app.callback_url) (
          member "tools" (arr (definitions_json app.tool_definitions)) (
            member "subscriptions" (arr (texts (keys app.event_handlers)))
              (member "mcp" (bool app.mcp_enabled) end)))))

  unfoldable pub register_with_bridge : App → Prog Unit
  register_with_bridge app =
      try_except (http_post (app.bridge_url <> "/v1/register") (registration app) >> pure tt)
        (λ exc. pure tt)
