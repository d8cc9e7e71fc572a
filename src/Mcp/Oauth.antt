-- ===== src/Mcp/Oauth.antt =====
-- services/mcp_server/oauth.py and config.py. The library of JSON web tokens is a parameter.
use belgrade_os.Base.{ℕ, ◌+◌, String, ◌<>◌, if◌then◌else◌, is_empty}
use belgrade_os.Wire.{Json}
use belgrade_os.World.{Exn, value_error, Result, Cmd}
use belgrade_os.Prog.{Prog, pure, raise, lift, ask, ◌>>=◌}
use belgrade_os.Calls.{signing_key}

-- Config
pub record Settings : Type 0 where
  pub bridge_url : String
  pub port : ℕ
  pub default_user_id : String
  pub default_tenant_id : String
  pub mcp_jwt_secret : String
  pub cf_team_domain : String
  pub cf_mcp_audience : String

-- `exp` as a time in milliseconds
pub record Payload : Type 0 where
  pub user_id : Json
  pub tenant_id : String
  pub exp_ms : ℕ

-- `jwt.encode` with HS256, and `jwt.decode` at a time: with a secret by HS256, and with a key and an
-- audience by RS256.
pub record Jwt : Type 0 where
  pub encode : Payload → String → String
  pub decode : ℕ → String → String → Result Json
  pub decode_rs256 : ℕ → String → String → String → Result Json

abbrev required : String → Exn
required name = record { fault = value_error; text = name <> " is required" }

module _ (jwt : Jwt) (cfg : Settings) where
  -- a setting that is to be there
  unfoldable pub need : String → String → Prog String
  need name value = if is_empty value then raise (required name) else pure value

  unfoldable pub get_jwt_secret : Prog String
  get_jwt_secret = need "MCP_JWT_SECRET" cfg.mcp_jwt_secret

  abbrev pub jwks_url : String → String
  jwks_url domain = "https://" <> domain <> ".cloudflareaccess.com/cdn-cgi/access/certs"

  -- _get_jwks_client, as its URL: the settings do not change, so a client that is kept has this one
  unfoldable pub get_jwks_client : Prog String
  get_jwks_client = do domain ← need "CF_TEAM_DOMAIN" cfg.cf_team_domain; pure (jwks_url domain)

  unfoldable pub validate_cf_jwt : String → Prog Json
  validate_cf_jwt token = do
    audience ← need "CF_MCP_AUDIENCE" cfg.cf_mcp_audience
    client ← get_jwks_client
    key ← signing_key client token
    now_ms ← ask Cmd.time_ms
    lift (jwt.decode_rs256 now_ms token key audience)

  abbrev pub hour_ms : ℕ
  hour_ms = 3600000

  unfoldable pub issue_token : Json → String → Prog String
  issue_token user_id tenant_id = do
    now_ms ← ask Cmd.time_ms
    secret ← get_jwt_secret
    pure (
        jwt.encode (record { user_id = user_id; tenant_id = tenant_id; exp_ms = now_ms + hour_ms })
          secret)

  unfoldable pub validate_token : String → Prog Json
  validate_token token = do
    secret ← get_jwt_secret
    now_ms ← ask Cmd.time_ms
    lift (jwt.decode now_ms token secret)
