-- ===== src/Mcp.antt =====
-- services/mcp_server/main.py and registry.py: tools of the platform for MCP clients.
pub mod Oauth
pub mod Listing
pub mod Handler
pub mod Guard
pub mod Session
pub mod Tests
use belgrade_os.Base.{
  ℕ, String, ◌<>◌, ◌==◌, Bool, true, false, Option, none, some, List, [], ◌∷◌, if◌then◌else◌,
  is_empty,
}
use belgrade_os.Base.Int.{ℤ, pos, negsuc}
use belgrade_os.Wire.{Json, null, int, str, arr, obj, Items, nil, item, Members, end, member}
use belgrade_os.World.{Exn, Fault, jwt_error, Result, ok, raised, Cmd}
use belgrade_os.Prog.{Prog, pure, raise, lift, ask, try_except, ◌>>=◌, ◌>>◌}
use belgrade_os.Calls.{http_get, http_post}
use belgrade_os.Codec.{Codec}
use belgrade_os.Access.{Python, get_or, or_dict, is_truthy, is_text}
use belgrade_os.Platform.Supervisor.{is_value_error}
use Oauth.{Settings, Jwt, validate_cf_jwt, issue_token, validate_token}
use Listing.{names_of, is_exposed, tools_json}

-- An answer with status 200, or an HTTPException with its status and detail.
pub data Response : Type 0 where
  answer : Json → Response
  refused : ℕ → String → Response

pub data Auth : Type 0 where
  granted : Json → Auth
  denied : String → Auth

abbrev pub is_bad_token : Fault → Bool
is_bad_token jwt_error = true
is_bad_token fault = is_value_error fault

-- `except Exception`, with the outcome as a value
unfoldable pub attempt : {A : Type 0} → Prog A → Prog (Result A)
attempt m = try_except (do a ← m; pure (ok a)) (λ exc. pure (raised exc))

module _ (c : Codec) (py : Python) (jwt : Jwt) (cfg : Settings) where
  -- _require_auth
  unfoldable pub require_auth : Option String → Prog Auth
  require_auth none = pure (denied "missing token")
  require_auth (some token) =
      try_except (do claims ← validate_token jwt cfg token; pure (granted claims))
        (λ exc. if is_bad_token exc.fault then pure (denied "invalid token") else raise exc)

  -- `cf_claims.get("sub") or _MCP_DEFAULT_USER_ID`
  abbrev pub subject : Json → Json
  subject sub = if is_truthy py sub then sub else str cfg.default_user_id

  abbrev pub token_reply : String → Json
  token_reply token = obj (
      member "access_token" (str token)
        (member "token_type" (str "bearer") (member "expires_in" (int (pos 3600)) end)))

  unfoldable pub with_claims : Result Json → Prog Response
  with_claims (raised exc) =
      if is_value_error exc.fault then raise exc else pure (refused 401 "invalid CF service token")
  with_claims (ok cf_claims) = do
    sub ← lift (get_or null "sub" cf_claims)
    token ← issue_token jwt cfg (subject sub) cfg.default_tenant_id
    pure (answer (token_reply token))

  unfoldable pub with_assertion : Option String → Prog Response
  with_assertion none = pure (refused 401 "missing CF JWT")
  with_assertion (some cf_jwt) =
      if is_empty cf_jwt
      then pure (refused 401 "missing CF JWT")
      else (do cf_claims ← attempt (validate_cf_jwt jwt cfg cf_jwt); with_claims cf_claims)

  abbrev pub is_client_credentials : Option String → Bool
  is_client_credentials none = false
  is_client_credentials (some grant_type) = grant_type == "client_credentials"

  -- POST /oauth/token, with the form's grant_type and the header CF-Access-Jwt-Assertion
  unfoldable pub token_endpoint : Option String → Option String → Prog Response
  token_endpoint grant_type cf_jwt =
      if is_client_credentials grant_type
      then with_assertion cf_jwt
      else pure (refused 400 "unsupported_grant_type")

  -- registry.list_mcp_tools
  abbrev pub tools_url : String
  tools_url = cfg.bridge_url <> "/v1/tools?mcp=true"

  unfoldable pub list_mcp_tools : Prog Json
  list_mcp_tools = http_get tools_url

  abbrev pub call_payload : String → String → String → Json → Json → Json → Json → Json
  call_payload call_id task_id trace_id tool_name arguments user_id tenant_id = obj (
      member "call_id" (str call_id) (
        member "task_id" (str task_id) (
          member "trace_id" (str trace_id) (
            member "tool_name" tool_name (
              member "input_json" (str (c.dumps arguments))
                (member "user_id" user_id (member "tenant_id" tenant_id end)))))))

  abbrev pub execute_url : String
  execute_url = cfg.bridge_url <> "/v1/execute"

  -- registry.call_tool
  unfoldable pub call_tool : Json → Json → Json → Json → Prog Json
  call_tool tool_name arguments user_id tenant_id = do
    call_id ← ask Cmd.uuid4
    task_id ← ask Cmd.uuid4
    trace_id ← ask Cmd.uuid4
    http_post execute_url
        (call_payload call_id task_id trace_id tool_name arguments user_id tenant_id)

  -- `ok` and `err` of the handler
  abbrev pub success : Json → Json → Response
  success req_id result =
      answer (obj (member "jsonrpc" (str "2.0") (member "result" result (member "id" req_id end))))

  abbrev pub failure : Json → ℤ → Json → Response
  failure req_id code message = answer (
      obj (
        member "jsonrpc" (str "2.0") (
          member "error" (obj (member "code" (int code) (member "message" message end)))
            (member "id" req_id end))))

  abbrev pub internal_error : Json → Json → Response
  internal_error req_id message = failure req_id (negsuc 32602) message

  abbrev pub unavailable : Json → Exn → Response
  unavailable req_id exc = internal_error req_id (str ("bridge unavailable: " <> exc.text))
