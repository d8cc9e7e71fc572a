-- ===== src/Runner/Lease.antt =====
-- What `process_tool_call` does to the lease and to the result stream.
use belgrade_os.Base.{ℕ, String, ◌<>◌, ◌≡◌, false, [], ◌∷◌, arith}
use belgrade_os.Base.Int.{ℤ, pos, leb_ℤ, floor_div, sub_ℕ}
use belgrade_os.Base.Text.{encode}
use belgrade_os.Wire.{Json, ToolCall, ToolResult}
use belgrade_os.World.{Result, ok, raised, Cmd}
use belgrade_os.Prog.{Env, History}
use belgrade_os.Codec.{Codec}
use belgrade_os.Calls.{running}
use belgrade_os.Delivery.{commands}
use belgrade_os.Streams.{tool_results_stream}
use belgrade_os.Runner.{
  lease_key, execute_request, failed_result, result_of, execute, lease_of, process_tool_call,
  set_lease, write_tool_result,
}

module _ (c : Codec) (base_url : String) where
  -- What `execute` answers to the Bridge's reply.
  abbrev pub answer : ToolCall → Result Json → ToolResult
  answer call (ok body) = elim (result_of c call body) [
    | ok r ↦ r
    | raised x ↦ failed_result call x
  ]
  answer call (raised x) = failed_result call x

  abbrev pub bridge_call : ToolCall → Cmd
  bridge_call call = Cmd.http_post (base_url <> "/v1/execute") (execute_request call)

  -- `execute` never raises, and makes one call.
  execute_lem :
      (call : ToolCall) (env : Env) (t : History)
      → let reply = env t (bridge_call call) in
        execute c base_url call env t ≡ (ok (answer call reply), (bridge_call call, reply) ∷ t)
  unfolding running execute
  execute_lem call env t = ground arith

module _ (c : Codec) (base_url : String) where
  abbrev pub store_lease : ToolCall → String → ℤ → ℕ → Cmd
  store_lease call worker_id ttl now_ms =
      Cmd.redis_set (lease_key worker_id)
        (c.lease_bytes (lease_of c base_url call worker_id ttl now_ms)) ttl

  abbrev pub publish_result : String → ToolResult → Cmd
  publish_result task_id r =
      Cmd.xadd tool_results_stream (("data", c.result_bytes r) ∷ ("task_id", encode task_id) ∷ [])

  -- Under a positive time to live, and if Redis stores the lease, a call asks the Bridge once, then
  -- adds one entry to the result stream, under the call's task id, and at last takes the lease away.
  -- This holds whatever the Bridge and Redis answer. The entry is the answer read from the Bridge's
  -- reply, or the failed result, with the duration filled in.
  pub process_tool_call-publishes :
      (call : ToolCall) (worker_id : String) (ttl : ℤ) (env : Env) (t : History)
      → leb_ℤ ttl (pos 0) ≡ false
      → let now = env t Cmd.time_ms in
        let store = store_lease call worker_id ttl now in
        env ((Cmd.time_ms, now) ∷ t) store ≡ ok tt
        → let t₁ = (store, ok tt) ∷ (Cmd.time_ms, now) ∷ t in
          let start_ns = env t₁ Cmd.monotonic_ns in
          let t₂ = (Cmd.monotonic_ns, start_ns) ∷ t₁ in
          let reply = env t₂ (bridge_call c base_url call) in
          let t₃ = (bridge_call c base_url call, reply) ∷ t₂ in
          let end_ns = env t₃ Cmd.monotonic_ns in
          let duration = floor_div (sub_ℕ end_ns start_ns) 1000000 in
          commands (process_tool_call c base_url call worker_id ttl env t).1
          ≡ Cmd.redis_delete (lease_key worker_id)
            ∷ publish_result call.task_id
                (record (answer c base_url call reply) { duration_ms = duration })
            ∷ Cmd.monotonic_ns
            ∷ bridge_call c base_url call
            ∷ Cmd.monotonic_ns
            ∷ store
            ∷ Cmd.time_ms
            ∷ commands t
  unfolding running process_tool_call set_lease write_tool_result
  process_tool_call-publishes call worker_id ttl env t h stored =
      let now = env t Cmd.time_ms in
      let store = store_lease call worker_id ttl now in
      let t₁ = (store, ok tt) ∷ (Cmd.time_ms, now) ∷ t in
      ground
        (arith, execute_lem c base_url call env ((Cmd.monotonic_ns, env t₁ Cmd.monotonic_ns) ∷ t₁))
