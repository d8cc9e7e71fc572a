-- ===== src/Inference/Main.antt =====
-- services/inference/config.py, the choice of the provider, and `main` of main.py.
use belgrade_os.Base.{
  ℕ, String, ◌<>◌, ◌==◌, ◌≡◌, ◌⊎◌, inl, inr, refl, sym, subst, Bool, Bool-cases, true, false, ◌&&◌,
  Option, none, some, is_empty, if◌then◌else◌, arith,
}
use belgrade_os.Base.Int.{ℤ}
use belgrade_os.World.{Exn, value_error, Result, Result-cases, ok, raised, Cmd}
use belgrade_os.Prog.{Prog, lift, ◌>>=◌, ◌>>◌, Env, History}
use belgrade_os.Calls.{running}
use belgrade_os.Codec.{Codec}
use belgrade_os.Delivery.{IsSettled}
use belgrade_os.Streams.{inbound_stream, tool_results_stream}
use belgrade_os.Startup.{ensure_group, effective_id, created, IsReady, IsRefused, ensure_group_lem}
use belgrade_os.Inference.{consumer_group, consumer_loop}
use belgrade_os.Inference.Acks.{AreDone, consumer_loop-AreDone}

pub record Config : Type 0 where
  pub redis_url : String
  pub provider : String
  pub model : String
  pub max_tokens : ℤ
  pub consumer_id : String
  pub anthropic_api_key : Option String
  pub google_api_key : Option String
  pub ollama_base_url : String

pub data Provider : Type 0 where
  anthropic : Option String → String → ℤ → Provider
  gemini : Option String → String → ℤ → Provider
  ollama : String → String → ℤ → Provider

-- `not key`
abbrev pub is_missing : Option String → Bool
is_missing none = true
is_missing (some key) = is_empty key

abbrev required : String → Exn
required text = record { fault = value_error; text = text }

unfoldable pub check_credentials : Config → Result Config
check_credentials cfg =
    if cfg.provider == "anthropic" && is_missing cfg.anthropic_api_key
    then raised (required "ANTHROPIC_API_KEY required when PROVIDER=anthropic")
    else if cfg.provider == "gemini" && is_missing cfg.google_api_key
    then raised (required "GOOGLE_API_KEY required when PROVIDER=gemini")
    else ok cfg

unfoldable pub build_provider : Config → Result Provider
build_provider cfg =
    if cfg.provider == "anthropic"
    then ok (Provider.anthropic cfg.anthropic_api_key cfg.model cfg.max_tokens)
    else if cfg.provider == "gemini"
    then ok (Provider.gemini cfg.google_api_key cfg.model cfg.max_tokens)
    else if cfg.provider == "ollama"
    then ok (Provider.ollama cfg.ollama_base_url cfg.model cfg.max_tokens)
    else raised (required ("Unknown provider: " <> cfg.provider))

unfoldable pub ensure_consumer_groups : Prog Unit
ensure_consumer_groups = do
  ensure_group inbound_stream consumer_group
  ensure_group tool_results_stream consumer_group

-- The provider has what it needs to ask its model.
abbrev pub HasKey : Provider → Type 0
HasKey (Provider.anthropic key _ _) = (k : String) × (key ≡ some k) × (is_empty k ≡ false)
HasKey (Provider.gemini key _ _) = (k : String) × (key ≡ some k) × (is_empty k ≡ false)
HasKey (Provider.ollama _ _ _) = Unit

is_missing-key :
    (key : Option String)
    → is_missing key ≡ false
    → (k : String) × (key ≡ some k) × (is_empty k ≡ false)
is_missing-key none h = absurd (ground arith)
is_missing-key (some k) h = (k, refl, h)

check_credentials_same : (cfg checked : Config) → check_credentials cfg ≡ ok checked → cfg ≡ checked
unfolding check_credentials
check_credentials_same cfg checked h = ground arith

check_credentials_fault :
    (cfg : Config) (x : Exn) → check_credentials cfg ≡ raised x → x.fault ≡ value_error
unfolding check_credentials
check_credentials_fault cfg x h = ground arith

build_provider_fault :
    (cfg : Config) (x : Exn) → build_provider cfg ≡ raised x → x.fault ≡ value_error
unfolding build_provider
build_provider_fault cfg x h = ground arith

-- A provider of settings that passed the check.
build_provider-HasKey :
    (cfg : Config) (provider : Provider)
    → check_credentials cfg ≡ ok cfg
    → build_provider cfg ≡ ok provider
    → HasKey provider
unfolding check_credentials build_provider
build_provider-HasKey cfg provider h k = elim (Bool-cases (cfg.provider == "anthropic")) [
  | inl e ↦
      let path : Provider.anthropic cfg.anthropic_api_key cfg.model cfg.max_tokens ≡ provider =
        ground (arith, e) in
      subst HasKey path (is_missing-key cfg.anthropic_api_key (ground (arith, e)))
  | inr e ↦ elim (Bool-cases (cfg.provider == "gemini")) [
    | inl f ↦
        let path : Provider.gemini cfg.google_api_key cfg.model cfg.max_tokens ≡ provider =
          ground (arith, e, f) in
        subst HasKey path (is_missing-key cfg.google_api_key (ground (arith, e, f)))
    | inr f ↦
        let path : Provider.ollama cfg.ollama_base_url cfg.model cfg.max_tokens ≡ provider =
          ground (arith, e, f) in
        subst HasKey path tt
  ]
]

module _ (c : Codec) (bridge_url hostname : String) where
  -- The groups, and then the loop, for a number of turns and with a bound on the rounds of a task.
  unfoldable pub serve : Config → ℕ → ℕ → Prog Unit
  serve cfg turns rounds = do
    ensure_consumer_groups
    consumer_loop c bridge_url (effective_id cfg.consumer_id hostname) turns rounds

  -- `load_config` is the check of the settings; the model library is the outside.
  unfoldable pub main : Config → ℕ → ℕ → Prog Unit
  main settings turns rounds = do
    cfg ← lift (check_credentials settings)
    provider ← lift (build_provider cfg)
    serve cfg turns rounds

  -- One of the two groups could not be created, which was the last call; or both are there, and then
  -- the worker called XACK for what it read.
  abbrev pub HasServed : Env → History → Result (Unit {0}) × History → Type 0
  HasServed env t end =
      IsRefused inbound_stream consumer_group env t end
      ⊎ (IsReady (env t (Cmd.xgroup_create inbound_stream consumer_group))
          × (let t₁ = created inbound_stream consumer_group env t in
              IsRefused tool_results_stream consumer_group env t₁ end
              ⊎ (IsReady (env t₁ (Cmd.xgroup_create tool_results_stream consumer_group))
                  × AreDone c end.1)))

  serve-HasServed :
      (cfg : Config) (turns rounds : ℕ) (env : Env) (t : History)
      → IsSettled inbound_stream t
      → HasServed env t (serve cfg turns rounds env t)
  unfolding serve ensure_consumer_groups running
  serve-HasServed cfg turns rounds env t h =
      elim (ensure_group_lem inbound_stream consumer_group env t) [
        | inl (x, e, f, g) ↦ inl (x, e, f, ground (arith, g))
        | inr (ready, g) ↦
            elim (ensure_group_lem tool_results_stream consumer_group env
              (created inbound_stream consumer_group env t)) [
                | inl (x, e, f, k) ↦ inr (ready, inl (x, e, f, ground (arith, g, k)))
                | inr (also, k) ↦
                    let t₂ =
                      created tool_results_stream consumer_group env
                        (created inbound_stream consumer_group env t) in
                    let id = effective_id cfg.consumer_id hostname in
                    let path : consumer_loop c bridge_url (effective_id cfg.consumer_id hostname)
                          turns rounds env t₂
                        ≡ serve cfg turns rounds env t =
                      ground (arith, g, k) in
                    inr (
                      ready,
                      inr (
                        also,
                        subst (λ p. AreDone c p.1) path
                            (consumer_loop-AreDone c bridge_url id turns rounds env t₂ h).0,
                      ),
                    )
              ]
      ]

  -- The settings were refused before any call; or there is a provider with its key, and the worker
  -- served.
  abbrev pub HasRun : Config → Env → History → Result (Unit {0}) × History → Type 0
  HasRun settings env t end =
      ((x : Exn) × (x.fault ≡ value_error) × (end ≡ (raised x, t)))
      ⊎ ((provider : Provider) × (build_provider settings ≡ ok provider)
          × HasKey provider
          × HasServed env t end)

  pub main-HasRun :
      (settings : Config) (turns rounds : ℕ) (env : Env) (t : History)
      → IsSettled inbound_stream t
      → HasRun settings env t (main settings turns rounds env t)
  unfolding main running
  main-HasRun settings turns rounds env t h = elim (Result-cases (check_credentials settings)) [
    | inr (x, e) ↦ inl (x, check_credentials_fault settings x e, ground (arith, e))
    | inl (cfg, e) ↦
        let checked : check_credentials settings ≡ ok settings =
          subst (λ k. check_credentials settings ≡ ok k)
            (sym (check_credentials_same settings cfg e)) e in
        elim (Result-cases (build_provider settings)) [
          | inr (x, f) ↦ inl (x, build_provider_fault settings x f, ground (arith, checked, f))
          | inl (provider, f) ↦
              let path : serve settings turns rounds env t ≡ main settings turns rounds env t =
                ground (arith, checked, f) in
              inr (
                provider,
                f,
                build_provider-HasKey settings provider checked f,
                subst (HasServed env t) path (serve-HasServed settings turns rounds env t h),
              )
        ]
  ]
