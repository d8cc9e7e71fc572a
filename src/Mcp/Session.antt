-- ===== src/Mcp/Session.antt =====
-- From a Cloudflare service token to the claims of an MCP session.
use belgrade_os.Base.{
  ℕ, ◌+◌, ◌*◌, ◌/◌, ltb, String, ◌==◌, ◌≡◌, refl, sym, subst, inl, inr, Bool-cases, false, Option,
  none, some, ◌∷◌, is_empty, if◌then◌else◌, arith, eq_iff,
}
use belgrade_os.Base.Int.{pos}
use belgrade_os.Wire.{Json, null, str, int, obj, end, member}
use belgrade_os.World.{Exn, jwt_error, Result-cases, ok, raised, Cmd}
use belgrade_os.Prog.{pure, Env, History}
use belgrade_os.Calls.{running}
use belgrade_os.Codec.{Codec}
use belgrade_os.Access.{Python, get_or}
use belgrade_os.Mcp.{
  answer, granted, denied, require_auth, subject, token_reply, token_endpoint, with_claims,
  with_assertion,
}
use belgrade_os.Mcp.Oauth.{
  Settings, Payload, Jwt, need, get_jwt_secret, get_jwks_client, validate_cf_jwt, issue_token,
  validate_token, hour_ms, jwks_url,
}
use belgrade_os.Mcp.Guard.{attempt_lem}

-- The claims that the library gives back: `exp` is in whole seconds.
abbrev pub claims_of : Payload → Json
claims_of p = obj (
    member "user_id" p.user_id
      (member "tenant_id" (str p.tenant_id) (member "exp" (int (pos (p.exp_ms / 1000))) end)))

-- A token that was made for a user and a tenant under a secret is accepted under it until its last
-- whole second, and from then on refused.
pub record JwtLaws (jwt : Jwt) (user_id : Json) (tenant_id secret : String) : Type 0 where
  pub expired : Exn
  pub expired_fault : expired.fault ≡ jwt_error
  pub decodes :
      (exp_ms now_ms : ℕ)
      → let p : Payload = record { user_id = user_id; tenant_id = tenant_id; exp_ms = exp_ms } in
        jwt.decode now_ms (jwt.encode p secret) secret
        ≡ (if ltb now_ms (exp_ms / 1000 * 1000) then ok (claims_of p) else raised expired)

module _ (c : Codec) (py : Python) (jwt : Jwt) (cfg : Settings) where
  -- A Cloudflare token that is accepted was decoded for the server's audience.
  validate_cf_jwt_lem :
      (token : String) (env : Env) (t : History) (claims : Json)
      → (validate_cf_jwt jwt cfg token env t).0 ≡ ok claims
      → (key : String) × (now_ms : ℕ) × (jwt.decode_rs256 now_ms token key cfg.cf_mcp_audience
          ≡ ok claims)
  unfolding validate_cf_jwt get_jwks_client need running
  validate_cf_jwt_lem token env t claims h = elim (Bool-cases (is_empty cfg.cf_mcp_audience)) [
    | inl e ↦ absurd (ground (arith, e))
    | inr e ↦ elim (Bool-cases (is_empty cfg.cf_team_domain)) [
      | inl f ↦ absurd (ground (arith, e, f))
      | inr f ↦
          let get = Cmd.signing_key (jwks_url jwt cfg cfg.cf_team_domain) token in
          elim (Result-cases
            (env t (Cmd.signing_key (jwks_url jwt cfg cfg.cf_team_domain) token))) [
              | inr (x, g) ↦ absurd (ground (arith, e, f, g))
              | inl (key, g) ↦ (key, env ((get, ok key) ∷ t) Cmd.time_ms, ground (arith, e, f, g))
            ]
    ]
  ]

  abbrev pub payload_of : Json → ℕ → Payload
  payload_of user_id issued_ms = record {
    user_id = user_id;
    tenant_id = cfg.default_tenant_id;
    exp_ms = issued_ms + hour_ms jwt cfg;
  }

  issue_token_lem :
      (user_id : Json) (env : Env) (t : History)
      → is_empty cfg.mcp_jwt_secret ≡ false
      → issue_token jwt cfg user_id cfg.default_tenant_id env t ≡ (
        ok (jwt.encode (payload_of user_id (env t Cmd.time_ms)) cfg.mcp_jwt_secret),
        (Cmd.time_ms, env t Cmd.time_ms) ∷ t,
      )
  unfolding issue_token get_jwt_secret need running
  issue_token_lem user_id env t e = ground (arith, e)

  issue_token-secret :
      (user_id : Json) (env : Env) (t : History) (token : String)
      → (issue_token jwt cfg user_id cfg.default_tenant_id env t).0 ≡ ok token
      → is_empty cfg.mcp_jwt_secret ≡ false
  unfolding issue_token get_jwt_secret need running
  issue_token-secret user_id env t token h = ground arith

  -- Where a token comes from.
  pub record Issued (grant_type cf_jwt : Option String) (token : String) (t' : History)
      : Type 0 where
    pub assertion : String
    pub key : String
    pub at_ms : ℕ
    pub cf_claims : Json
    pub sub : Json
    pub issued_ms : ℕ
    pub before : History
    pub of_client : grant_type ≡ some "client_credentials"
    pub is_given : cf_jwt ≡ some assertion
    pub is_verified : jwt.decode_rs256 at_ms assertion key cfg.cf_mcp_audience ≡ ok cf_claims
    pub of_subject : get_or null "sub" cf_claims ≡ ok sub
    pub has_secret : is_empty cfg.mcp_jwt_secret ≡ false
    pub made :
        token ≡ jwt.encode (payload_of (subject c py jwt cfg sub) issued_ms) cfg.mcp_jwt_secret
    pub ends : t' ≡ (Cmd.time_ms, issued_ms) ∷ before

  with_claims-Issued :
      (assertion : String) (token : String) (env : Env) (t : History)
      → (with_assertion c py jwt cfg (some assertion) env t).0
        ≡ ok (answer (token_reply c py jwt cfg token))
      → Issued
          (some "client_credentials")
          (some assertion)
          token
          (with_assertion c py jwt cfg (some assertion) env t).1
  unfolding with_assertion with_claims running
  with_claims-Issued assertion token env t h = elim (Bool-cases (is_empty assertion)) [
    | inl e ↦ absurd (ground (arith, e))
    | inr e ↦ elim (Result-cases (validate_cf_jwt jwt cfg assertion env t).0) [
      | inr (x, f) ↦
          absurd (ground (arith, e, f, attempt_lem (validate_cf_jwt jwt cfg assertion) env t))
      | inl (cf_claims, f) ↦ elim (Result-cases (get_or null "sub" cf_claims)) [
        | inr (x, g) ↦
            absurd (ground (arith, e, f, g, attempt_lem (validate_cf_jwt jwt cfg assertion) env t))
        | inl (sub, g) ↦
            let (key, at_ms, verified) = validate_cf_jwt_lem assertion env t cf_claims f in
            let user_id = subject c py jwt cfg sub in
            let t₁ = (validate_cf_jwt jwt cfg assertion env t).1 in
            let tried = attempt_lem (validate_cf_jwt jwt cfg assertion) env t in
            elim (Result-cases
              (issue_token jwt cfg (subject c py jwt cfg sub) cfg.default_tenant_id env
                (validate_cf_jwt jwt cfg assertion env t).1).0) [
                  | inr (x, k) ↦ absurd (ground (arith, e, f, g, k, tried))
                  | inl (made, k) ↦
                      let secret =
                        issue_token-secret (subject c py jwt cfg sub) env
                          (validate_cf_jwt jwt cfg assertion env t).1 made k in
                      let issue =
                        issue_token_lem (subject c py jwt cfg sub) env
                          (validate_cf_jwt jwt cfg assertion env t).1 secret in
                      record {
                        assertion = assertion;
                        key = key;
                        at_ms = at_ms;
                        cf_claims = cf_claims;
                        sub = sub;
                        issued_ms = env (validate_cf_jwt jwt cfg assertion env t).1 Cmd.time_ms;
                        before = (validate_cf_jwt jwt cfg assertion env t).1;
                        of_client = refl;
                        is_given = refl;
                        is_verified = verified;
                        of_subject = g;
                        has_secret = secret;
                        made = ground (arith, e, f, g, issue, tried);
                        ends = ground (arith, e, f, g, issue, tried);
                      }
                ]
      ]
    ]
  ]

  token_endpoint-Issued :
      (grant_type cf_jwt : Option String) (token : String) (env : Env) (t : History)
      → (token_endpoint c py jwt cfg grant_type cf_jwt env t).0
        ≡ ok (answer (token_reply c py jwt cfg token))
      → Issued grant_type cf_jwt token (token_endpoint c py jwt cfg grant_type cf_jwt env t).1
  unfolding token_endpoint with_assertion pure
  token_endpoint-Issued none cf_jwt token env t h = absurd (ground arith)
  token_endpoint-Issued (some grant_type) none token env t h = absurd (ground arith)
  token_endpoint-Issued (some grant_type) (some assertion) token env t h =
      elim (Bool-cases (grant_type == "client_credentials")) [
        | inr e ↦ absurd (ground (arith, e))
        | inl e ↦
            let named : grant_type ≡ "client_credentials" =
              (eq_iff grant_type "client_credentials").0 e in
            let path : with_assertion c py jwt cfg (some assertion) env t
                ≡ token_endpoint c py jwt cfg (some grant_type) (some assertion) env t =
              ground (arith, e) in
            subst
              (λ g.
                Issued (some g) (some assertion) token
                  (token_endpoint c py jwt cfg (some grant_type) (some assertion) env t).1)
              (sym named)
              (subst (λ p. Issued (some "client_credentials") (some assertion) token p.1) path
                (with_claims-Issued assertion token env t (ground (arith, e))))
      ]

  -- Where the library accepts the Cloudflare token for the server's audience, this is its subject.
  abbrev pub Names : Option String → Json → Type 0
  Names cf_jwt sub =
      (assertion key : String) (at_ms : ℕ) (cf_claims : Json)
      → cf_jwt ≡ some assertion
      → jwt.decode_rs256 at_ms assertion key cfg.cf_mcp_audience ≡ ok cf_claims
      → get_or null "sub" cf_claims ≡ ok sub

  -- A session. If the token endpoint answers with a token, then the request was one for client
  -- credentials with a Cloudflare token that was decoded for the server's audience, and the clock was
  -- read last, at the time of issue. Whenever that token is presented, it is accepted until the last
  -- whole second of an hour after its issue, as claims of the Cloudflare subject, or of the default
  -- user where there is none, and of the default tenant; from then on it is refused. The library of
  -- tokens is to give back the claims of a token that it made, until it expires.
  pub token_endpoint-session :
      (cf_jwt : Option String) (sub : Json)
      → Names cf_jwt sub
      → (laws : JwtLaws jwt (subject c py jwt cfg sub) cfg.default_tenant_id cfg.mcp_jwt_secret)
        (grant_type : Option String) (token : String) (env : Env) (t : History)
      → (token_endpoint c py jwt cfg grant_type cf_jwt env t).0
        ≡ ok (answer (token_reply c py jwt cfg token))
      → (later : Env) (u : History)
      → (issue : Issued grant_type cf_jwt token
          (token_endpoint c py jwt cfg grant_type cf_jwt env t).1)
        × (let now_ms = later u Cmd.time_ms in
            let payload = payload_of (subject c py jwt cfg sub) issue.issued_ms in
            require_auth c py jwt cfg (some token) later u ≡ (
              ok (
                  if ltb now_ms ((issue.issued_ms + 3600000) / 1000 * 1000)
                  then granted (claims_of payload)
                  else denied "invalid token"),
              (Cmd.time_ms, now_ms) ∷ u,
            ))
  unfolding require_auth validate_token get_jwt_secret need running
  token_endpoint-session cf_jwt sub named laws grant_type token env t h later u =
      let issue = token_endpoint-Issued grant_type cf_jwt token env t h in
      let found =
        named issue.assertion issue.key issue.at_ms issue.cf_claims issue.is_given
          issue.is_verified in
      let same_sub : issue.sub ≡ sub = ground (arith, found, issue.of_subject) in
      let made : token
          ≡ jwt.encode (payload_of (subject c py jwt cfg sub) issue.issued_ms) cfg.mcp_jwt_secret =
        subst
          (λ s.
            token
            ≡ jwt.encode (payload_of (subject c py jwt cfg s) issue.issued_ms) cfg.mcp_jwt_secret)
          same_sub issue.made in
      let decoded = laws.decodes (issue.issued_ms + 3600000) (later u Cmd.time_ms) in
      (issue, ground (arith, decoded, made, issue.has_secret, laws.expired_fault))
