-- ===== src/Runner/Acks.antt =====
-- XACK is called for every tool call that the runner reads, whatever becomes of it.
use belgrade_os.Base.{
  ℕ, zero, suc, String, ◌≡◌, ◌⊎◌, refl, inl, inr, Option-cases, none, some, ◌∷◌, arith,
}
use belgrade_os.Base.Dict.{lookup}
use belgrade_os.Base.Int.{ℤ}
use belgrade_os.Base.Text.{Bytes}
use belgrade_os.Wire.{ToolCall}
use belgrade_os.World.{Cmd, Result-cases, ok}
use belgrade_os.Prog.{Env, History}
use belgrade_os.Codec.{Codec}
use belgrade_os.Calls.{running}
use belgrade_os.Delivery.{delivered, xack_calls, refused_acks, IsSettled, LacksData}
use belgrade_os.Streams.{tool_calls_stream}
use belgrade_os.Runner.{
  process_tool_call, set_lease, write_tool_result, execute, handle_entry, entry_data,
  read_tool_call, consume_one, consumer_loop, consumer_group,
}

module _ (c : Codec) (base_url : String) where
  -- Processing reads no entry and calls no XACK.
  process_tool_call-keeps :
      (call : ToolCall) (worker_id : String) (ttl : ℤ) (env : Env) (t : History)
      → let t' = (process_tool_call c base_url call worker_id ttl env t).1 in
        (delivered tool_calls_stream t' ≡ delivered tool_calls_stream t)
        × (xack_calls tool_calls_stream t' ≡ xack_calls tool_calls_stream t)
        × (refused_acks tool_calls_stream t' ≡ refused_acks tool_calls_stream t)
  unfolding running process_tool_call set_lease write_tool_result execute
  process_tool_call-keeps call worker_id ttl env t = ground (arith)

  handle_entry-acks :
      (worker_id : String) (ttl : ℤ) (id : String) (payload : Bytes) (env : Env) (t : History)
      → let (r, t') = handle_entry c base_url worker_id ttl (some (id, payload)) env t in
        (delivered tool_calls_stream t' ≡ delivered tool_calls_stream t)
        × (xack_calls tool_calls_stream t' ≡ id ∷ xack_calls tool_calls_stream t)
        × (r ≡ ok tt → refused_acks tool_calls_stream t' ≡ refused_acks tool_calls_stream t)
  unfolding running handle_entry
  handle_entry-acks worker_id ttl id payload env t = elim (Result-cases (c.parse_call payload)) [
    | inl (call, e) ↦ rw e (ground (arith, process_tool_call-keeps call worker_id ttl env t))
    | inr (x, e) ↦ rw e (ground arith)
  ]

  consume_one-acks :
      (worker_id : String) (ttl : ℤ) (env : Env) (t : History)
      → IsSettled tool_calls_stream t
      → let (r, t') = consume_one c base_url worker_id ttl env t in
        (IsSettled tool_calls_stream t' ⊎ LacksData tool_calls_stream t')
        × (r ≡ ok tt
            → IsSettled tool_calls_stream t'
              × (refused_acks tool_calls_stream t' ≡ refused_acks tool_calls_stream t))
  unfolding running consume_one read_tool_call handle_entry entry_data
  consume_one-acks worker_id ttl env t h =
      elim (Result-cases (env t (Cmd.xreadgroup tool_calls_stream consumer_group worker_id))) [
        | inl (none, e) ↦ ground arith
        | inl (some m, e) ↦ elim (Option-cases (lookup "data" m.fields)) [
          | inl absent ↦ rw (e, absent) (inr (m, ground arith, absent), ground arith)
          | inr (payload, present) ↦ ground (
            arith,
            handle_entry-acks worker_id ttl m.id payload env
                (read_tool_call consumer_group worker_id env t).1,
          )
        ]
        | inr (x, e) ↦ ground arith
      ]

  pub consumer_loop-acks :
      (rounds : ℕ) (worker_id : String) (ttl : ℤ) (env : Env) (t : History)
      → IsSettled tool_calls_stream t
      → let (r, t') = consumer_loop c base_url rounds worker_id ttl env t in
        (IsSettled tool_calls_stream t' ⊎ LacksData tool_calls_stream t')
        × (r ≡ ok tt
            → IsSettled tool_calls_stream t'
              × (refused_acks tool_calls_stream t' ≡ refused_acks tool_calls_stream t))
  unfolding running consumer_loop
  consumer_loop-acks zero worker_id ttl env t h = (inl h, λ _. (h, refl))
  consumer_loop-acks (suc rounds) worker_id ttl env t h = ground (
    arith,
    consume_one-acks worker_id ttl env t h,
    consumer_loop-acks rounds worker_id ttl env (consume_one c base_url worker_id ttl env t).1,
  )
