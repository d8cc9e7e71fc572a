-- ===== src/Platform/Untrusted/Answers.antt =====
-- XACK is called for an untrusted call only when it is answered.
use belgrade_os.Base.{
  ℕ, String, ◌≡◌, ◌⊎◌, refl, subst, Bool-cases, false, some, [], ◌∷◌, inl, inr, arith,
}
use belgrade_os.Base.Int.{sub_ℕ}
use belgrade_os.Base.Text.{Bytes, encode}
use belgrade_os.Wire.{ToolCall, ToolResult}
use belgrade_os.World.{Cmd, Exn, Result, Result-cases, ok, raised}
use belgrade_os.Prog.{Env, History, pure, try_except, ◌>>=◌}
use belgrade_os.Prog.Emits.{Extends, same, more, Extends-trans}
use belgrade_os.Calls.{running, xack}
use belgrade_os.Codec.{Codec}
use belgrade_os.Delivery.{xack_calls}
use belgrade_os.Streams.{tool_results_stream, untrusted_calls_stream}
use belgrade_os.Platform.AppId.{is_app_id}
use belgrade_os.Platform.Ephemeral.{Sandbox}
use belgrade_os.Platform.Untrusted.Attempts.{
  NotAck, xack_calls-NotAck, Answers, attempt-NotAck, attempt-Answers,
}
use belgrade_os.Platform.Untrusted.{
  consumer_group, app_of, answer, attempt, add_result, answer_call, process_call,
  process_untrusted_call, handle_data, invalid_app,
}

module _ (c : Codec) (sandbox : Sandbox) (call : ToolCall) where
  abbrev pub result_call : ToolResult → Cmd
  result_call result =
      Cmd.xadd tool_results_stream
        (("data", c.result_bytes result) ∷ ("task_id", encode call.task_id) ∷ [])

  -- A result of the call was added last, and XACK was not called before.
  IsAnswered : History → History → Type 0
  IsAnswered t t' =
      (result : ToolResult) × (before : History) × Answers c sandbox call result
      × Extends NotAck t before
      × (t' ≡ (result_call result, ok tt) ∷ before)

  Outcome : History → Result (Unit {0}) × History → Type 0
  Outcome t (r, t') =
      (((x : Exn) × (r ≡ raised x)) × Extends NotAck t t') ⊎ ((r ≡ ok tt) × IsAnswered t t')

  add_result-Outcome :
      (result : ToolResult) (env : Env) (t u : History)
      → Answers c sandbox call result
      → Extends NotAck t u
      → Outcome t (add_result c sandbox call result env u)
  unfolding add_result running Outcome IsAnswered
  add_result-Outcome result env t u names quiet = elim (Result-cases (env u (result_call result))) [
    | inr (x, e) ↦ rw e (inl ((x, refl), more (result_call result) (raised x) tt quiet))
    | inl (tt, e) ↦ rw e (inr (refl, (result, u, names, quiet, refl)))
  ]

  Outcome-raised :
      (t : History) (x : Exn) (o : Result (Unit {0}) × History) (v : History)
      → o ≡ (raised x, v)
      → Extends NotAck t v
      → Outcome t o
  unfolding Outcome
  Outcome-raised t x o v e quiet = rw e (inl ((x, refl), quiet))

  answer_call-answers :
      (start_ms : ℕ) (env : Env) (u : History) (result : ToolResult)
      → (attempt c sandbox call env u).0 ≡ ok result
      → let v = (attempt c sandbox call env u).1 in
        let end_ms = env v Cmd.time_ms in
        add_result c sandbox call
          (record result { duration_ms = sub_ℕ end_ms start_ms })
          env
          ((Cmd.time_ms, end_ms) ∷ v)
        ≡ answer_call c sandbox call start_ms env u
  unfolding answer_call running
  answer_call-answers start_ms env u result e = ground arith

  answer_call-Outcome :
      (start_ms : ℕ) (env : Env) (t u : History)
      → Extends NotAck t u
      → Outcome t (answer_call c sandbox call start_ms env u)
  unfolding answer_call running
  answer_call-Outcome start_ms env t u quiet =
      let v = (attempt c sandbox call env u).1 in
      let end_ms = env v Cmd.time_ms in
      let quiet' = Extends-trans quiet ((attempt-NotAck c sandbox call).at env u) in
      elim (Result-cases (attempt c sandbox call env u).0) [
        | inr (x, e) ↦ Outcome-raised t x _ v (ground arith) quiet'
        | inl (result, e) ↦
            let timed = record result { duration_ms = sub_ℕ end_ms start_ms } in
            let w : History = (Cmd.time_ms, end_ms) ∷ v in
            subst (λ o. Outcome t o) (answer_call-answers start_ms env u result e)
              (add_result-Outcome timed env t w (attempt-Answers c sandbox call env u result e)
                (more Cmd.time_ms end_ms tt quiet'))
      ]

  process_call-Outcome :
      (start_ms : ℕ) (env : Env) (t u : History)
      → Extends NotAck t u
      → Outcome t (process_call c sandbox call start_ms env u)
  unfolding process_call
  process_call-Outcome start_ms env t u quiet =
      elim (Bool-cases (is_app_id (app_of call.tool_name))) [
        | inl e ↦ rw e (answer_call-Outcome start_ms env t u quiet)
        | inr e ↦
            let refused = answer call false "" (invalid_app c sandbox call) in
            rw e (add_result-Outcome refused env t u (refl, refl, refl, refl) quiet)
      ]

  abbrev pub ack_call : String → Cmd
  ack_call id = Cmd.xack untrusted_calls_stream consumer_group id

  -- XACK was called for the entry right after a result of the call was added.
  abbrev pub IsAcknowledged : String → History → History → Type 0
  IsAcknowledged id t t' =
      (result : ToolResult) × (before : History) × (a : Result (Unit {0})) × Answers c sandbox call
        result
      × (t' ≡ (ack_call id, a) ∷ (result_call result, ok tt) ∷ before)
      × (xack_calls untrusted_calls_stream before ≡ xack_calls untrusted_calls_stream t)

  abbrev IsHandled : String → History → History → Type 0
  IsHandled id t t' =
      (xack_calls untrusted_calls_stream t' ≡ xack_calls untrusted_calls_stream t)
      ⊎ IsAcknowledged id t t'

  handled :
      (id : String) (env : Env) (t : History) (o : Result (Unit {0}) × History)
      → Outcome t o
      → IsHandled id t
          (try_except
            ((λ _ _. o) >>= λ _. xack untrusted_calls_stream consumer_group id)
            (λ exc. pure tt)
            env
            t).1
  unfolding Outcome IsAnswered running
  handled id env t (r, t') (inl ((x, e), quiet)) =
      inl (rw e (xack_calls-NotAck untrusted_calls_stream quiet))
  handled id env t (r, t') (inr (e, (result, before, names, quiet, f))) = inr (
    result,
    before,
    env t' (ack_call id),
    names,
    ground arith,
    xack_calls-NotAck untrusted_calls_stream quiet,
  )

module _ (c : Codec) (sandbox : Sandbox) where
  handle_data-processed :
      (id : String) (payload : Bytes) (call : ToolCall) (env : Env) (t : History)
      → c.parse_call payload ≡ ok call
      → let start_ms = env t Cmd.time_ms in
        let o = process_call c sandbox call start_ms env ((Cmd.time_ms, start_ms) ∷ t) in
        (try_except
          ((λ _ _. o) >>= λ _. xack untrusted_calls_stream consumer_group id)
          (λ exc. pure tt)
          env
          t).1
        ≡ (handle_data c sandbox id (some payload) env t).1
  unfolding handle_data process_untrusted_call running
  handle_data-processed id payload call env t e = ground arith

  -- Whatever the file system, docker and Redis answer: of an entry of the sandbox's stream with the
  -- field `data`, either XACK is not called, or its call was parsed, a result that names the call,
  -- its task, its user and its tenant was added to the result stream, and then XACK was called for
  -- the entry.
  pub handle_data-answers :
      (id : String) (payload : Bytes) (env : Env) (t : History)
      → let t' = (handle_data c sandbox id (some payload) env t).1 in
        (xack_calls untrusted_calls_stream t' ≡ xack_calls untrusted_calls_stream t)
        ⊎ ((call : ToolCall) × (c.parse_call payload ≡ ok call)
            × IsAcknowledged c sandbox call id t t')
  unfolding handle_data process_untrusted_call running
  handle_data-answers id payload env t = elim (Result-cases (c.parse_call payload)) [
    | inr (x, e) ↦ inl (ground arith)
    | inl (call, e) ↦
        let start_ms = env t Cmd.time_ms in
        let u : History = (Cmd.time_ms, start_ms) ∷ t in
        let outcome =
          process_call-Outcome c sandbox call start_ms env t u
            (more Cmd.time_ms start_ms tt same) in
        let o = process_call c sandbox call start_ms env u in
        elim (subst (λ t'. IsHandled c sandbox call id t t')
          (handle_data-processed id payload call env t e)
          (handled c sandbox call id env t o outcome)) [
            | inl kept ↦ inl kept
            | inr acked ↦ inr (call, e, acked)
          ]
  ]
