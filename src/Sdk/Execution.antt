-- ===== src/Sdk/Execution.antt =====
-- How a call of a tool ends.
use belgrade_os.Base.{◌≡◌, ◌⊎◌, true, false, ◌∷◌, String}
use belgrade_os.Wire.{Json, Members}
use belgrade_os.World.{Exn, Result, ok, raised, Cmd}
use belgrade_os.Prog.{Env, History}
use belgrade_os.Codec.{Codec}
use belgrade_os.Sdk.Context.{Context, has_session, sessions}
use belgrade_os.Sdk.App.{App, Tool, ExecuteResponse, failed, succeeded, mapping}

-- The session of the call is closed where there is one; what the closing raises is the outcome.
abbrev pub IsCleaned :
    Result ExecuteResponse → History → ExecuteResponse → History → History → Type 0
IsCleaned r t' response between t =
    ((has_session (sessions t) between ≡ false) × (r ≡ ok response) × (t' ≡ between))
    ⊎ ((has_session (sessions t) between ≡ true)
        × (((r ≡ ok response) × (t' ≡ (Cmd.db_close, ok tt) ∷ between))
            ⊎ ((x : Exn) × (r ≡ raised x) × (t' ≡ (Cmd.db_close, raised x) ∷ between))))

-- What the tool came to: its value as JSON, or the text of what it raised; or the text of what the
-- parsing of the arguments raised, and then the tool was not called.
abbrev pub IsAnswer :
    Codec → Tool → Context → String → Env → History → ExecuteResponse → History → Type 0
IsAnswer c func ctx input_json env t response between =
    ((x : Exn) × (c.loads input_json ≡ raised x) × (response ≡ failed x) × (between ≡ t))
    ⊎ ((value : Json) × (x : Exn) × (c.loads input_json ≡ ok value)
        × (mapping value ≡ raised x)
        × (response ≡ failed x)
        × (between ≡ t))
    ⊎ ((kwargs : Members) × (c.loads input_json ≡ ok (Json.obj kwargs))
        × (let (q, u) = func ctx (sessions t) kwargs env t in
            (between ≡ u)
            × (((output : Json) × (q ≡ ok output) × (response ≡ succeeded (c.dumps output)))
                ⊎ ((x : Exn) × (q ≡ raised x) × (response ≡ failed x)))))

module _ (c : Codec) where
  -- What a call of a tool comes to, in any outcome.
  abbrev Answered :
      Tool → Context → String → Env → History → Result ExecuteResponse × History → Type 0
  Answered func ctx input_json env t end =
      (response : ExecuteResponse) × (between : History) × (end ≡ (ok response, between))
      × IsAnswer c func ctx input_json env t response between
