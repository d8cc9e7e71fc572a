-- ===== src/Sdk/Requests.antt =====
-- What becomes of a request for an inference: the worker's side of `InferenceAdapter.request`.
use belgrade_os.Base.{
  ℕ, String, ◌≡◌, ◌⊎◌, refl, subst, Bool-cases, inl, inr, false, some, [], ◌∷◌, is_empty, arith,
}
use belgrade_os.Wire.{Task}
use belgrade_os.World.{Exn, runtime_error, Result-cases, ok, raised, Cmd}
use belgrade_os.Prog.{Env, History}
use belgrade_os.Prog.Emits.{
  Emits, Emits-lift_bind, Emits-try_finally, Emits-try_except, Emits-bind, Emits-pure,
}
use belgrade_os.Calls.{running}
use belgrade_os.Calls.Emits.{Emits-xack}
use belgrade_os.Codec.{Codec}
use belgrade_os.Streams.{inbound_stream}
use belgrade_os.Inference.{handle_task, process_task}
use belgrade_os.Inference.Trust.{Confined, process_task-Confined}
use belgrade_os.Sdk.Context.{Context, need_redis, or_empty}
use belgrade_os.Sdk.Operations.{new_trace, request, task_of}

abbrev pub ReadsTasks : Codec → Type 0
ReadsTasks c = (task : Task) → c.parse_task (c.task_bytes task) ≡ ok task

module _ (c : Codec) (reads : ReadsTasks c) where
  handle_task-Confined :
      (bridge_url consumer_id : String) (rounds : ℕ) (msg_id : String) (task : Task)
      → is_empty task.app_id ≡ false
      → Emits
          (Confined c task)
          (handle_task c bridge_url consumer_id rounds (some (msg_id, c.task_bytes task)))
  unfolding handle_task
  handle_task-Confined bridge_url consumer_id rounds msg_id task named =
      Emits-lift_bind _ _ (λ task' e.
        let same : task ≡ task' = ground (arith, reads task) in
        let confined : Emits (Confined c task)
            (process_task c bridge_url consumer_id rounds task') =
          subst (λ u. Emits (Confined c task) (process_task c bridge_url consumer_id rounds u)) same
            (process_task-Confined c bridge_url consumer_id task named rounds) in
        Emits-try_finally _ _
          (Emits-try_except _ _ (Emits-bind _ _ confined (λ _. Emits-pure tt))
            (λ exc. Emits-pure tt))
          (Emits-xack _ _ _ tt))

  new_trace_lem :
      (upper : String → String) (ctx : Context) (env : Env) (t : History)
      → (trace_id : String) × (t' : History) × (new_trace c upper ctx env t ≡ (ok trace_id, t'))
  unfolding new_trace running
  new_trace_lem upper ctx env t = elim (Bool-cases (is_empty ctx.trace_id)) [
    | inl e ↦ (env t Cmd.uuid4, (Cmd.uuid4, env t Cmd.uuid4) ∷ t, ground arith)
    | inr e ↦ (ctx.trace_id, t, ground arith)
  ]

  -- What an app asks of the model stays in the sandbox. A request of a context with an app id either
  -- raises, or the last call has added one task to the inbound stream; that task has the id that is
  -- returned, the app's id and the user of the context, and the worker that reads it, whatever
  -- Redis, the Bridge and the model answer, adds nothing to the trusted runner's stream, and to the
  -- sandbox's stream only calls with that task's id and user that are marked as untrusted.
  pub request-Confined :
      (upper : String → String) (ctx : Context)
      → is_empty ctx.app_id ≡ false
      → (prompt : String) (env : Env) (t : History) (bridge_url consumer_id : String) (rounds : ℕ)
        (msg_id : String)
      → let (r, t') = request c upper ctx prompt env t in
        ((x : Exn) × (r ≡ raised x))
        ⊎ ((task : Task) × (before : History) × (r ≡ ok (task.task_id, task.trace_id))
            × (task.app_id ≡ ctx.app_id)
            × (task.user_id ≡ or_empty ctx.user_id)
            × (t'
                ≡ (Cmd.xadd_maxlen inbound_stream (("data", c.task_bytes task) ∷ []) 1000, ok tt)
                  ∷ before)
            × Emits
                (Confined c task)
                (handle_task c bridge_url consumer_id rounds (some (msg_id, c.task_bytes task))))
  unfolding request need_redis running
  request-Confined upper ctx named prompt env t bridge_url consumer_id rounds msg_id =
      elim (Bool-cases ctx.has_redis) [
        | inr e ↦ inl (
          record { fault = runtime_error; text = "Redis pool not initialized in AppContext" },
          ground arith,
        )
        | inl e ↦
            let task_id : String = env t Cmd.uuid4 in
            let t₁ : History = (Cmd.uuid4, task_id) ∷ t in
            let (trace_id, t₂, f) = new_trace_lem upper ctx env t₁ in
            let now_ms : ℕ = env t₂ Cmd.time_ms in
            let t₃ : History = (Cmd.time_ms, now_ms) ∷ t₂ in
            let task = task_of c upper ctx task_id trace_id now_ms prompt in
            let add = Cmd.xadd_maxlen inbound_stream (("data", c.task_bytes task) ∷ []) 1000 in
            elim (Result-cases (env t₃ add)) [
              | inr (x, g) ↦ inl (x, ground arith)
              | inl (u, g) ↦ inr (
                task,
                t₃,
                ground arith,
                refl,
                refl,
                ground arith,
                handle_task-Confined bridge_url consumer_id rounds msg_id task named,
              )
            ]
      ]
