-- ===== src/Mcp/Tests.antt =====
-- The MCP server at concrete inputs.
use Prim.Native.Char.{nul}
use belgrade_os.Base.{
  ℕ, zero, suc, ◌+◌, ◌*◌, ◌/◌, ltb, String, ◌≡◌, refl, ap, sym, ◌⊎◌, false, some, [], ◌∷◌,
  if◌then◌else◌,
}
use belgrade_os.Wire.{Json, null, str, obj, arr, nil, item, end, member}
use belgrade_os.World.{Exn, jwt_error, Result, ok, raised, Cmd, Reply}
use belgrade_os.Results.{◌>>=◌}
use belgrade_os.Prog.{Env, History}
use belgrade_os.Prog.Emits.{Extends}
use belgrade_os.Calls.{running}
use belgrade_os.Delivery.{commands}
use belgrade_os.Access.{
  Python, get_or, elements, is_truthy, or_dict, hashed, index, same_key, is_text,
}
use belgrade_os.Sample.{codec, env}
use belgrade_os.Mcp.{
  Response, answer, refused, granted, denied, attempt, require_auth, token_endpoint, with_assertion,
  with_claims, token_reply, list_mcp_tools, call_tool, call_payload,
}
use belgrade_os.Mcp.Oauth.{
  Settings, Payload, Jwt, issue_token, validate_cf_jwt, validate_token, get_jwks_client,
  get_jwt_secret, need,
}
use belgrade_os.Mcp.Listing.{names_of, set_of_names, is_exposed, elem}
use belgrade_os.Mcp.Handler.{
  mcp_handler, handle_body, dispatch, call_path, call_listed, call_exposed, call_as, finish_call,
}
use belgrade_os.Mcp.Guard.{OnlyClock, Reaches, mcp_handler-guarded}
use belgrade_os.Mcp.Session.{JwtLaws, Issued, claims_of, token_endpoint-session}

abbrev python : Python
python = record { is_zero_float = λ _. false; same_number = λ _ _. false; format = λ _. "" }

abbrev expired : Exn
expired = record { fault = jwt_error; text = "Signature has expired" }

abbrev size : String → ℕ
size String.[] = zero
size (String.◌∷◌ _ s) = suc (size s)

-- The token of a payload is as long as its time of expiry.
abbrev token_of : ℕ → String
token_of zero = ""
token_of (suc n) = String.◌∷◌ nul (token_of n)

size-token_of : (n : ℕ) → size (token_of n) ≡ n
size-token_of zero = refl
size-token_of (suc n) = ap suc (size-token_of n)

abbrev for_user : ℕ → Payload
for_user exp_ms = record { user_id = str "svc"; tenant_id = "h1"; exp_ms = exp_ms }

-- A library of tokens for one user.
abbrev jwt : Jwt
jwt = record {
  encode = λ p _. token_of p.exp_ms;
  decode = λ now_ms token _.
      if ltb now_ms (size token / 1000 * 1000)
      then ok (claims_of (for_user (size token)))
      else raised expired;
  decode_rs256 = λ _ _ _ _. ok (obj (member "sub" (str "svc") end));
}

abbrev settings : Settings
settings = record {
  bridge_url = "http://b";
  port = 8083;
  default_user_id = "u0";
  default_tenant_id = "h1";
  mcp_jwt_secret = "secret";
  cf_team_domain = "team";
  cf_mcp_audience = "aud";
}

jwt-JwtLaws : JwtLaws jwt (str "svc") "h1" "secret"
jwt-JwtLaws = record {
  expired = expired;
  expired_fault = refl;
  decodes = λ exp_ms now_ms.
      ap (λ n. if ltb now_ms (n / 1000 * 1000) then ok (claims_of (for_user n)) else raised expired)
        (size-token_of exp_ms);
}

abbrev token : String
token = jwt.encode (for_user 3601000) "secret"

-- A client with a Cloudflare token is given one.
token_endpoint_answers :
    (token_endpoint codec python jwt settings (some "client_credentials") (some "cf") env []).0
    ≡ ok (answer (token_reply codec python jwt settings token))
unfolding running token_endpoint with_assertion with_claims attempt validate_cf_jwt get_jwks_client
    get_jwt_secret issue_token need get_or is_truthy
token_endpoint_answers = refl

token_endpoint-session_example :
    (issue : Issued codec python jwt settings
      (some "client_credentials")
      (some "cf")
      token
      (token_endpoint codec python jwt settings (some "client_credentials") (some "cf") env []).1)
    × (require_auth codec python jwt settings (some token) env [] ≡ (
      ok (
          if ltb 1000 ((issue.issued_ms + 3600000) / 1000 * 1000)
          then granted (claims_of (for_user (issue.issued_ms + 3600000)))
          else denied "invalid token"),
      (Cmd.time_ms, 1000) ∷ [],
    ))
unfolding is_truthy get_or
token_endpoint-session_example =
    token_endpoint-session codec python jwt settings (some "cf") (str "svc")
      (λ assertion key at_ms cf_claims given h. ap (λ r. r >>= get_or null "sub") (sym h))
      jwt-JwtLaws (some "client_credentials") token env [] token_endpoint_answers env []

-- The Bridge lists one tool, and the tool answers.
abbrev listing : Json
listing = arr (item (obj (member "name" (str "shopping:add") end)) nil)

abbrev reply : (c : Cmd) → Reply c → Reply c
reply (Cmd.http_get _) _ = ok listing
reply (Cmd.http_post _ _) _ =
    ok (obj (member "success" (str "true") (member "output_json" (str "[]") end)))
reply _ found = found

abbrev bridge : Env
bridge t c = reply c (env t c)

abbrev request : Json
request = obj (
    member "method" (str "tools/call")
      (member "params" (obj (member "name" (str "shopping:add") end)) end))

-- A token of the third second.
abbrev older : String
older = jwt.encode (for_user 3000) "secret"

abbrev handled : Result Response × History
handled = mcp_handler codec python jwt settings (some older) (ok request) bridge []

-- The one tool is called.
handled_calls :
    commands handled.1
    ≡ Cmd.http_post "http://b/v1/execute" (
        call_payload codec python jwt settings "id" "id" "id"
          (str "shopping:add")
          (obj end)
          (str "svc")
          (str "h1"))
      ∷ Cmd.uuid4
      ∷ Cmd.uuid4
      ∷ Cmd.uuid4
      ∷ Cmd.http_get "http://b/v1/tools?mcp=true"
      ∷ Cmd.time_ms
      ∷ []
unfolding running mcp_handler handle_body dispatch call_path call_listed call_exposed call_as
    finish_call call_tool list_mcp_tools require_auth validate_token get_jwt_secret need attempt
    names_of set_of_names is_exposed elem get_or index hashed same_key elements is_text is_truthy
    or_dict
handled_calls = refl

mcp_handler-guarded_example :
    (Extends OnlyClock [] handled.1
      × (((detail : String) × (handled.0 ≡ ok (refused 401 detail)))
          ⊎ ((x : Exn) × (handled.0 ≡ raised x))))
    ⊎ ((claims : Json) × (false ≡ false)
        × ((used : String) × (some older ≡ some used) × (jwt.decode 1000 used "secret" ≡ ok claims))
        × Reaches codec python jwt settings claims ((Cmd.time_ms, 1000) ∷ []) handled.1)
mcp_handler-guarded_example =
    mcp_handler-guarded codec python jwt settings (some older) (ok request) bridge []
