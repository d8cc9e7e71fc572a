-- ===== src/Mcp/Handler.antt =====
-- `mcp_handler` of services/mcp_server/main.py.
use belgrade_os.Base.{String, ◌<>◌, Bool, Option, if◌then◌else◌}
use belgrade_os.Base.Int.{negsuc}
use belgrade_os.Wire.{Json, null, str, arr, obj, nil, item, end, member}
use belgrade_os.World.{Result, ok, raised}
use belgrade_os.Prog.{Prog, pure, lift, ◌>>=◌}
use belgrade_os.Codec.{Codec}
use belgrade_os.Access.{Python, get_or, or_dict, is_truthy, is_text}
use belgrade_os.Mcp.{
  Response, refused, Auth, granted, denied, attempt, require_auth, list_mcp_tools, call_tool,
  success, failure, internal_error, unavailable,
}
use belgrade_os.Mcp.Oauth.{Settings, Jwt}
use belgrade_os.Mcp.Listing.{names_of, is_exposed, tools_json}

module _ (c : Codec) (py : Python) (jwt : Jwt) (cfg : Settings) where
  abbrev initialized : Json
  initialized = obj (
      member "protocolVersion" (str "2024-11-05") (
        member "capabilities" (obj (member "tools" (obj end) end)) (
          member "serverInfo"
            (obj (member "name" (str "belgrade-os") (member "version" (str "1.0.0") end))) end)))

  abbrev fail : Json → Json → Response
  fail req_id message = internal_error c py jwt cfg req_id message

  abbrev listed : Json → Result Json → Response
  listed req_id (raised exc) = unavailable c py jwt cfg req_id exc
  listed req_id (ok tools) = success c py jwt cfg req_id tools

  unfoldable pub list_path : Json → Prog Response
  list_path req_id = do
    tools ← attempt (do found ← list_mcp_tools c py jwt cfg; lift (tools_json c py found))
    pure (listed req_id tools)

  -- `[{"type": "text", "text": output}]`
  abbrev pub content : Json → Json
  content output = obj (
      member "content"
        (arr (item (obj (member "type" (str "text") (member "text" output end))) nil)) end)

  -- what follows the call
  unfoldable pub finish_call : Json → Result Json → Prog Response
  finish_call req_id (raised exc) = pure (fail req_id (str ("tool execution failed: " <> exc.text)))
  finish_call req_id (ok result) = do
    flag ← lift (get_or null "success" result)
    if is_truthy py flag
        then (do
          output ← lift (get_or (str "{}") "output_json" result)
          pure (success c py jwt cfg req_id (content output)))
        else (do
          message ← lift (get_or (str "tool execution failed") "error" result)
          pure (fail req_id message))

  unfoldable pub call_as : Json → Json → Json → Prog Json
  call_as claims tool_name arguments = do
    user_id ← lift (get_or (str cfg.default_user_id) "user_id" claims)
    tenant_id ← lift (get_or (str cfg.default_tenant_id) "tenant_id" claims)
    call_tool c py jwt cfg tool_name arguments user_id tenant_id

  unfoldable pub call_exposed : Json → Json → Json → Json → Bool → Prog Response
  call_exposed claims req_id tool_name arguments exposed =
      if exposed
      then (do result ← attempt (call_as claims tool_name arguments); finish_call req_id result)
      else pure (
          failure c py jwt cfg req_id (negsuc 32601)
            (str ("tool not found: " <> py.format tool_name)))

  unfoldable pub call_listed : Json → Json → Json → Json → Result Json → Prog Response
  call_listed claims req_id tool_name arguments (raised exc) =
      pure (unavailable c py jwt cfg req_id exc)
  call_listed claims req_id tool_name arguments (ok tools) = do
    names ← lift (names_of c py tools)
    exposed ← lift (is_exposed c py tool_name names)
    call_exposed claims req_id tool_name arguments exposed

  -- tools/call
  unfoldable pub call_path : Json → Json → Json → Prog Response
  call_path claims params req_id = do
    tool_name ← lift (get_or (str "") "name" params)
    given ← lift (get_or null "arguments" params)
    tools ← attempt (list_mcp_tools c py jwt cfg)
    call_listed claims req_id tool_name (or_dict py given) tools

  unfoldable pub dispatch : Json → Json → Json → Json → Prog Response
  dispatch claims method params req_id =
      if is_text "initialize" method
      then pure (success c py jwt cfg req_id initialized)
      else if is_text "tools/list" method
      then list_path req_id
      else if is_text "tools/call" method
      then call_path claims params req_id
      else pure (
          failure c py jwt cfg req_id (negsuc 32600)
            (str ("method not found: " <> py.format method)))

  unfoldable pub handle_body : Json → Result Json → Prog Response
  handle_body claims request = do
    body ← lift request
    method ← lift (get_or (str "") "method" body)
    params ← lift (get_or null "params" body)
    req_id ← lift (get_or null "id" body)
    dispatch claims method (or_dict py params) req_id

  abbrev authorised : Result Json → Auth → Prog Response
  authorised request (denied detail) = pure (refused 401 detail)
  authorised request (granted claims) = handle_body claims request

  -- POST /mcp, with the bearer token and the JSON of the body
  unfoldable pub mcp_handler : Option String → Result Json → Prog Response
  mcp_handler credentials request = do
    auth ← require_auth c py jwt cfg credentials
    authorised request auth
