-- ===== src/Vault/Main.antt =====
-- `main` of services/vault_service/main.py, and config.py.
use belgrade_os.Base.{ℕ, String, ◌≡◌, ◌⊎◌, inl, inr, ◌∷◌, arith}
use belgrade_os.World.{Exn, Result-cases, raised, ok, Cmd}
use belgrade_os.Prog.{Prog, try_finally, ◌>>◌, Env, History}
use belgrade_os.Calls.{running, aclose, fs_mkdirs}
use belgrade_os.Codec.{Codec}
use belgrade_os.Delivery.{IsSettled}
use belgrade_os.Streams.{vault_ops_stream}
use belgrade_os.Startup.{
  ensure_group, effective_id, ClosesRedis, finally-ClosesRedis, IsServed, ensure_group-IsServed,
  created,
}
use belgrade_os.Vault.{Paths, consumer_group, consumer_loop}
use belgrade_os.Vault.Acks.{consumer_loop-settles}

pub record Config : Type 0 where
  pub vault_path : String
  pub redis_url : String
  pub worker_id : String

abbrev pub Done : History → Type 0
Done t = IsSettled vault_ops_stream t

-- The vault's folder could not be made, before any read, and Redis stays open; or Redis is closed.
abbrev pub ClosesRedisUnless : String → History → History → Type 0
ClosesRedisUnless vault_path between t' =
    ((x : Exn) × (t' ≡ (Cmd.fs_mkdirs vault_path, raised x) ∷ between)) ⊎ ClosesRedis between t'

module _ (paths : Paths) (c : Codec) (cfg : Config) (hostname : String) where
  unfoldable pub serve : ℕ → Prog Unit
  serve turns =
      fs_mkdirs cfg.vault_path
      >> try_finally (consumer_loop paths c turns (effective_id cfg.worker_id hostname))
          (aclose "redis")

  unfoldable pub main : ℕ → Prog Unit
  main turns = ensure_group vault_ops_stream consumer_group >> serve turns

  pub main-IsServed :
      (turns : ℕ) (env : Env) (t : History)
      → IsSettled vault_ops_stream t
      → IsServed vault_ops_stream consumer_group Done
          (ClosesRedisUnless cfg.vault_path)
          env
          t
          (main turns env t)
  unfolding main serve running
  main-IsServed turns env t settled =
      let loop = consumer_loop paths c turns (effective_id cfg.worker_id hostname) in
      let t₁ = created vault_ops_stream consumer_group env t in
      let mkdirs = Cmd.fs_mkdirs cfg.vault_path in
      elim (Result-cases
        (env (created vault_ops_stream consumer_group env t) (Cmd.fs_mkdirs cfg.vault_path))) [
          | inr (x, e) ↦
              ensure_group-IsServed vault_ops_stream consumer_group Done
                (ClosesRedisUnless cfg.vault_path) (serve turns) env t t₁ settled
                (inl (x, ground (arith, e)))
          | inl (u, e) ↦
              let t₂ : History = (mkdirs, ok tt) ∷ t₁ in
              let (r, closed) = finally-ClosesRedis loop env t₂ in
              ensure_group-IsServed vault_ops_stream consumer_group Done
                (ClosesRedisUnless cfg.vault_path) (serve turns) env t (loop env t₂).1
                (consumer_loop-settles paths c turns (effective_id cfg.worker_id hostname) env t₂
                  settled)
                (inr (r, ground (arith, e, closed)))
        ]
