-- ===== src/Mcp/Guard.antt =====
-- What a request to the MCP server makes the Bridge do.
use belgrade_os.Base.{
  ℕ, String, ◌≡◌, ◌⊎◌, inl, inr, refl, sym, subst, Bool-cases, true, false, Option, none, some,
  List, ◌∷◌, is_empty, arith,
}
use belgrade_os.Wire.{Json, null, str}
use belgrade_os.World.{Exn, Result, Result-cases, ok, raised, Cmd}
use belgrade_os.Prog.{Prog, ◌>>=◌, Env, History}
use belgrade_os.Prog.Emits.{Emits, Extends, same, more}
use belgrade_os.Calls.{running}
use belgrade_os.Calls.Emits.{emits_calls}
use belgrade_os.Codec.{Codec}
use belgrade_os.Access.{Python, get_or, or_dict, is_truthy, is_text}
use belgrade_os.Mcp.{
  is_bad_token, refused, attempt, require_auth, list_mcp_tools, call_tool, call_payload,
  execute_url, tools_url,
}
use belgrade_os.Mcp.Oauth.{Settings, Jwt, validate_token, get_jwt_secret, need}
use belgrade_os.Mcp.Listing.{names_of, is_exposed}
use belgrade_os.Mcp.Handler.{
  call_as, finish_call, call_exposed, call_listed, call_path, list_path, dispatch, handle_body,
  mcp_handler,
}

-- Any call but a POST.
abbrev pub NoPost : Cmd → Type 0
NoPost (Cmd.http_post _ _) = ⊥
NoPost _ = Unit

-- The clock alone is read.
abbrev pub OnlyClock : Cmd → Type 0
OnlyClock Cmd.time_ms = Unit
OnlyClock _ = ⊥

pub attempt_lem :
    {A : Type 0} (m : Prog A) (env : Env) (t : History)
    → attempt m env t ≡ (ok (m env t).0, (m env t).1)
unfolding attempt running
attempt_lem m env t = elim (Result-cases (m env t).0) [
  | inl (a, e) ↦ ground (arith, e)
  | inr (x, e) ↦ ground (arith, e)
]

module _ (c : Codec) (py : Python) (jwt : Jwt) (cfg : Settings) where
  -- One tool is called: the Bridge listed it just before, and the call carries the claims' user and
  -- tenant.
  pub record Called (claims : Json) (t t' : History) : Type 0 where
    pub listing : Json
    pub names : List Json
    pub tool_name : Json
    pub arguments : Json
    pub user_id : Json
    pub tenant_id : Json
    pub call_id : String
    pub task_id : String
    pub trace_id : String
    pub reply : Result Json
    pub are_listed : names_of c py listing ≡ ok names
    pub is_listed : is_exposed c py tool_name names ≡ ok true
    pub of_user : get_or (str cfg.default_user_id) "user_id" claims ≡ ok user_id
    pub of_tenant : get_or (str cfg.default_tenant_id) "tenant_id" claims ≡ ok tenant_id
    pub calls :
        t'
        ≡ (
          Cmd.http_post (execute_url c py jwt cfg) (
              call_payload c py jwt cfg call_id task_id trace_id tool_name arguments user_id
                tenant_id),
          reply,
        )
          ∷ (Cmd.uuid4, trace_id)
          ∷ (Cmd.uuid4, task_id)
          ∷ (Cmd.uuid4, call_id)
          ∷ (Cmd.http_get (tools_url c py jwt cfg), ok listing)
          ∷ t

  abbrev pub Reaches : Json → History → History → Type 0
  Reaches claims t t' = Extends NoPost t t' ⊎ Called claims t t'

  finish_call_still :
      (req_id : Json) (r : Result Json) (env : Env) (t : History)
      → (finish_call c py jwt cfg req_id r env t).1 ≡ t
  unfolding finish_call running
  finish_call_still req_id (raised exc) env t = refl
  finish_call_still req_id (ok result) env t = elim (Result-cases (get_or null "success" result)) [
    | inr (x, e) ↦ ground (arith, e)
    | inl (flag, e) ↦ elim (Bool-cases (is_truthy py flag)) [
      | inl f ↦ elim (Result-cases (get_or (str "{}") "output_json" result)) [
        | inl (o, g) ↦ ground (arith, e, f, g)
        | inr (x, g) ↦ ground (arith, e, f, g)
      ]
      | inr f ↦ elim (Result-cases (get_or (str "tool execution failed") "error" result)) [
        | inl (o, g) ↦ ground (arith, e, f, g)
        | inr (x, g) ↦ ground (arith, e, f, g)
      ]
    ]
  ]

  -- What follows an attempt leaves the history as it is.
  then_still :
      (req_id : Json) (m : Prog Json) (env : Env) (t : History)
      → ((attempt m >>= finish_call c py jwt cfg req_id) env t).1 ≡ (m env t).1
  unfolding ◌>>=◌
  then_still req_id m env t =
      ground (arith, attempt_lem m env t, finish_call_still req_id (m env t).0 env (m env t).1)

  abbrev listed : History → Json → History
  listed t listing = (Cmd.http_get (tools_url c py jwt cfg), ok listing) ∷ t

  -- The call itself, after the listing.
  module _ (claims listing : Json) (names : List Json) (tool_name arguments : Json)
      (are_listed : names_of c py listing ≡ ok names)
      (is_listed : is_exposed c py tool_name names ≡ ok true) where
    call_as-Reaches :
        (env : Env) (t : History)
        → Reaches claims t
            (call_as c py jwt cfg claims tool_name arguments env (listed t listing)).1
    unfolding call_as call_tool running
    call_as-Reaches env t =
        elim (Result-cases (get_or (str cfg.default_user_id) "user_id" claims)) [
          | inr (x, e) ↦ rw e (inl (more _ _ tt same))
          | inl (user_id, e) ↦
              elim (Result-cases (get_or (str cfg.default_tenant_id) "tenant_id" claims)) [
                | inr (x, f) ↦ rw (e, f) (inl (more _ _ tt same))
                | inl (tenant_id, f) ↦
                    let t₁ : History = listed t listing in
                    let call_id : String = env t₁ Cmd.uuid4 in
                    let t₂ : History = (Cmd.uuid4, call_id) ∷ t₁ in
                    let task_id : String = env t₂ Cmd.uuid4 in
                    let t₃ : History = (Cmd.uuid4, task_id) ∷ t₂ in
                    let trace_id : String = env t₃ Cmd.uuid4 in
                    let t₄ : History = (Cmd.uuid4, trace_id) ∷ t₃ in
                    let post = Cmd.http_post (execute_url c py jwt cfg) (
                      call_payload c py jwt cfg call_id task_id trace_id tool_name arguments user_id
                        tenant_id) in
                    inr (record {
                      listing = listing;
                      names = names;
                      tool_name = tool_name;
                      arguments = arguments;
                      user_id = user_id;
                      tenant_id = tenant_id;
                      call_id = call_id;
                      task_id = task_id;
                      trace_id = trace_id;
                      reply = env t₄ post;
                      are_listed = are_listed;
                      is_listed = is_listed;
                      of_user = e;
                      of_tenant = f;
                      calls = ground (arith, e, f);
                    })
              ]
        ]

    call_exposed-Reaches :
        (req_id : Json) (env : Env) (t : History)
        → Reaches claims t
            (call_exposed c py jwt cfg claims req_id tool_name arguments true env
              (listed t listing)).1
    unfolding call_exposed
    call_exposed-Reaches req_id env t =
        subst (Reaches claims t)
          (sym (
            then_still req_id (call_as c py jwt cfg claims tool_name arguments) env
              (listed t listing)))
          (call_as-Reaches env t)

  module _ (claims req_id tool_name arguments : Json) where
    refused_still :
        (listing : Json) (env : Env) (t : History)
        → Extends NoPost t
            (call_exposed c py jwt cfg claims req_id tool_name arguments false env
              (listed t listing)).1
    unfolding call_exposed running
    refused_still listing env t = more _ _ tt same

    call_listed-Reaches :
        (found : Result Json) (env : Env) (t : History)
        → Reaches claims t
            (call_listed c py jwt cfg claims req_id tool_name arguments found env
              ((Cmd.http_get (tools_url c py jwt cfg), found) ∷ t)).1
    unfolding call_listed running
    call_listed-Reaches (raised x) env t = inl (more _ _ tt same)
    call_listed-Reaches (ok listing) env t = elim (Result-cases (names_of c py listing)) [
      | inr (x, e) ↦ rw e (inl (more _ _ tt same))
      | inl (names, e) ↦ elim (Result-cases (is_exposed c py tool_name names)) [
        | inr (x, f) ↦ rw (e, f) (inl (more _ _ tt same))
        | inl (false, f) ↦ rw (e, f) (inl (refused_still listing env t))
        | inl (true, f) ↦
            rw (e, f)
              (call_exposed-Reaches claims listing names tool_name arguments e f req_id env t)
      ]
    ]

  -- A program that makes no POST reaches the Bridge with none.
  Reaches-NoPost :
      {A : Type 0} (claims : Json) (m : Prog A) (env : Env) (t : History)
      → Emits NoPost m
      → Reaches claims t (m env t).1
  Reaches-NoPost claims m env t h = inl (h.at env t)

  list_path-NoPost : (req_id : Json) → Emits NoPost (list_path c py jwt cfg req_id)
  unfolding list_path list_mcp_tools attempt
  list_path-NoPost req_id = search emits_calls depth 10

  call_path-Reaches :
      (claims params req_id : Json) (env : Env) (t : History)
      → Reaches claims t (call_path c py jwt cfg claims params req_id env t).1
  unfolding call_path list_mcp_tools attempt running
  call_path-Reaches claims params req_id env t =
      elim (Result-cases (get_or (str "") "name" params)) [
        | inr (x, e) ↦ rw e (inl same)
        | inl (tool_name, e) ↦ elim (Result-cases (get_or null "arguments" params)) [
          | inr (x, f) ↦ rw (e, f) (inl same)
          | inl (given, f) ↦
              let found : Result Json = env t (Cmd.http_get (tools_url c py jwt cfg)) in
              let t₁ : History = (Cmd.http_get (tools_url c py jwt cfg), found) ∷ t in
              let path : (call_listed c py jwt cfg claims req_id tool_name (or_dict py given) found
                    env t₁).1
                  ≡ (call_path c py jwt cfg claims params req_id env t).1 =
                ground (arith, e, f, attempt_lem (list_mcp_tools c py jwt cfg) env t) in
              subst (Reaches claims t) path
                (call_listed-Reaches claims req_id tool_name (or_dict py given) found env t)
        ]
      ]

  dispatch-Reaches :
      (claims method params req_id : Json) (env : Env) (t : History)
      → Reaches claims t (dispatch c py jwt cfg claims method params req_id env t).1
  unfolding dispatch running
  dispatch-Reaches claims method params req_id env t =
      elim (Bool-cases (is_text "initialize" method)) [
        | inl e ↦ rw e (inl same)
        | inr e ↦ elim (Bool-cases (is_text "tools/list" method)) [
          | inl f ↦
              rw (e, f)
                (Reaches-NoPost claims (list_path c py jwt cfg req_id) env t
                  (list_path-NoPost req_id))
          | inr f ↦ elim (Bool-cases (is_text "tools/call" method)) [
            | inl g ↦ rw (e, f, g) (call_path-Reaches claims params req_id env t)
            | inr g ↦ rw (e, f, g) (inl same)
          ]
        ]
      ]

  handle_body-Reaches :
      (claims : Json) (request : Result Json) (env : Env) (t : History)
      → Reaches claims t (handle_body c py jwt cfg claims request env t).1
  unfolding handle_body get_or running
  handle_body-Reaches claims (raised x) env t = inl same
  handle_body-Reaches claims (ok (Json.obj ms)) env t = dispatch-Reaches claims _ _ _ env t
  handle_body-Reaches claims (ok _) env t = inl same

  -- The token was accepted at this time, as these claims.
  abbrev pub Accepted : Option String → ℕ → Json → Type 0
  Accepted credentials now_ms claims =
      (token : String) × (credentials ≡ some token)
      × (jwt.decode now_ms token cfg.mcp_jwt_secret ≡ ok claims)

  abbrev clocked : Env → History → History
  clocked env t = (Cmd.time_ms, env t Cmd.time_ms) ∷ t

  -- Without a token that the JWT library accepts under the server's secret, which is not empty,
  -- the server only reads the clock, and answers 401 or fails. With one it makes no POST, or, after it
  -- has asked for the Bridge's list, exactly one: to the Bridge's endpoint for calls, of a tool that
  -- is on that list, in the name of the user and the tenant of the token's claims.
  pub mcp_handler-guarded :
      (credentials : Option String) (request : Result Json) (env : Env) (t : History)
      → let (r, t') = mcp_handler c py jwt cfg credentials request env t in
        (Extends OnlyClock t t'
          × (((detail : String) × (r ≡ ok (refused 401 detail))) ⊎ ((x : Exn) × (r ≡ raised x))))
        ⊎ ((claims : Json) × (is_empty cfg.mcp_jwt_secret ≡ false)
            × Accepted credentials (env t Cmd.time_ms) claims
            × Reaches claims (clocked env t) t')
  unfolding mcp_handler require_auth validate_token get_jwt_secret need running
  mcp_handler-guarded none request env t = inl (same, inl ("missing token", refl))
  mcp_handler-guarded (some token) request env t = elim (Bool-cases (is_empty cfg.mcp_jwt_secret)) [
    | inl e ↦
        let ends : mcp_handler c py jwt cfg (some token) request env t
            ≡ (ok (refused 401 "invalid token"), t) =
          ground (arith, e) in
        rw ends (inl (same, inl ("invalid token", refl)))
    | inr e ↦ elim (Result-cases (jwt.decode (env t Cmd.time_ms) token cfg.mcp_jwt_secret)) [
      | inr (x, f) ↦ elim (Bool-cases (is_bad_token x.fault)) [
        | inl g ↦
            let ends : mcp_handler c py jwt cfg (some token) request env t
                ≡ (ok (refused 401 "invalid token"), clocked env t) =
              ground (arith, e, f, g) in
            rw ends (inl (more _ _ tt same, inl ("invalid token", refl)))
        | inr g ↦
            let ends : mcp_handler c py jwt cfg (some token) request env t
                ≡ (raised x, clocked env t) =
              ground (arith, e, f, g) in
            rw ends (inl (more _ _ tt same, inr (x, refl)))
      ]
      | inl (claims, f) ↦
          let ends : mcp_handler c py jwt cfg (some token) request env t
              ≡ handle_body c py jwt cfg claims request env (clocked env t) =
            ground (arith, e, f) in
          inr (
            claims,
            e,
            (token, refl, f),
            rw ends (handle_body-Reaches claims request env (clocked env t)),
          )
    ]
  ]
