-- ===== src/Platform/Untrusted/Attempts.antt =====
-- What the attempt at an untrusted call asks of the outside, and the result that it gives.
use belgrade_os.Base.{String, ◌≡◌, refl, Option, none, some, inl, inr, arith}
use belgrade_os.Wire.{Json, ToolCall, ToolResult}
use belgrade_os.World.{Cmd, Exn, Result-cases, ok}
use belgrade_os.Prog.{Env, History}
use belgrade_os.Prog.Emits.{Extends, same, more, Extends-mono, Emits, Emits-try_finally, Emits-ask}
use belgrade_os.Calls.{running}
use belgrade_os.Calls.Emits.{emits_calls}
use belgrade_os.Codec.{Codec}
use belgrade_os.Delivery.{xack_calls}
use belgrade_os.Platform.Ephemeral.{Sandbox, work_dir, run, run_in, work}
use belgrade_os.Platform.Ephemeral.Cleanup.{InSandbox, work-InSandbox}
use belgrade_os.Platform.Untrusted.{app_of, failed_with, error_of, input_of, attempt}

abbrev pub NotAck : Cmd → Type 0
NotAck (Cmd.xack _ _ _) = ⊥
NotAck _ = Unit

pub xack_calls-NotAck :
    (stream : String) {t u : History}
    → Extends NotAck t u
    → xack_calls stream u ≡ xack_calls stream t
xack_calls-NotAck stream same = refl
xack_calls-NotAck stream (more (Cmd.xack _ _ _) r p h) = absurd p
xack_calls-NotAck stream (more _ r p h) = xack_calls-NotAck stream h

module _ (sandbox : Sandbox) (task_id app_id : String) where
  InSandbox-NotAck : (c : Cmd) → InSandbox sandbox task_id app_id c → NotAck c
  InSandbox-NotAck (Cmd.xack _ _ _) h = h
  InSandbox-NotAck _ h = tt

  work-NotAck : (input_data : Json) → Emits NotAck (work sandbox task_id app_id input_data)
  work-NotAck input_data = record {
    at = λ env t.
        Extends-mono InSandbox-NotAck ((work-InSandbox sandbox task_id app_id input_data).at env t);
  }

  run_in-NotAck : (input_data : Json) → Emits NotAck (run_in sandbox task_id app_id input_data)
  unfolding run_in
  run_in-NotAck input_data =
      Emits-try_finally _ _ (work-NotAck input_data) (Emits-ask (Cmd.rmtree (work_dir task_id)) tt)

  run-NotAck : (input_data : Json) → Emits NotAck (run sandbox task_id app_id input_data)
  unfolding run
  run-NotAck input_data = search (emits_calls, run_in-NotAck) depth 8

module _ (c : Codec) (sandbox : Sandbox) (call : ToolCall) where
  failed_with-NotAck :
      (exc : Exn) (error : Option String) → Emits NotAck (failed_with call exc error)
  failed_with-NotAck exc none = search emits_calls
  failed_with-NotAck exc (some error) = search emits_calls

  pub attempt-NotAck : Emits NotAck (attempt c sandbox call)
  unfolding attempt
  attempt-NotAck = search (emits_calls, run-NotAck, failed_with-NotAck)

  -- The result names the call.
  abbrev pub Answers : ToolResult → Type 0
  Answers result =
      (result.call_id ≡ call.call_id)
      × (result.task_id ≡ call.task_id)
      × (result.user_id ≡ call.user_id)
      × (result.tenant_id ≡ call.tenant_id)

  failed_with-Answers :
      (exc : Exn) (error : Option String) (env : Env) (t : History) (result : ToolResult)
      → (failed_with call exc error env t).0 ≡ ok result
      → Answers result
  unfolding running
  failed_with-Answers exc none env t result h = ground arith
  failed_with-Answers exc (some error) env t result h = ground arith

  pub attempt-Answers :
      (env : Env) (t : History) (result : ToolResult)
      → (attempt c sandbox call env t).0 ≡ ok result
      → Answers result
  unfolding attempt running
  attempt-Answers env t result h =
      let ran = run sandbox call.task_id (app_of call.tool_name) (input_of c sandbox call) env t in
      elim (Result-cases ran.0) [
        | inl (output, e) ↦ ground arith
        | inr (x, e) ↦ ground (arith, failed_with-Answers x (error_of x) env ran.1 result)
      ]
