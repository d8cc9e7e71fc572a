-- ===== src/Inference/Asking.antt =====
-- When the worker asks the model again.
use belgrade_os.Base.{
  String, ◌==◌, ◌≡◌, ◌≢◌, inl, inr, refl, subst, Bool-cases, List, [], ◌∷◌, arith,
}
use belgrade_os.Wire.{Task, ThoughtEventType}
use belgrade_os.World.{
  Result-cases, ok, ChatMessage, ToolUse, ToolOutput, Stream, text_chunk, stream_done, finished,
  broken,
}
use belgrade_os.Prog.{Env, History}
use belgrade_os.Calls.{running}
use belgrade_os.Codec.{Codec}
use belgrade_os.Inference.{stop, again, drain, run_tool, run_tools, publish_event, extended}
use belgrade_os.Inference.Providers.Turns.{IsTurn, EndsTurn}

module _ (c : Codec) (bridge_url consumer_id : String) (task : Task) where
  run_tools-some :
      (u : ToolUse) (us : List ToolUse) (env : Env) (t : History) (outputs : List ToolOutput)
      → (run_tools c bridge_url consumer_id task (u ∷ us) env t).0 ≡ ok outputs
      → outputs ≢ []
  unfolding run_tools running
  run_tools-some u us env t outputs h empty =
      let (r, t₁) = run_tool c bridge_url consumer_id task u env t in
      elim (Result-cases (run_tool c bridge_url consumer_id task u env t).0) [
        | inr (x, e) ↦ ground arith
        | inl (o, e) ↦
            elim (Result-cases
              (run_tools c bridge_url consumer_id task us env
                (run_tool c bridge_url consumer_id task u env t).1).0) [
                  | inr (x, f) ↦ ground arith
                  | inl (os, f) ↦ ground arith
                ]
      ]

  stop_again : {messages' : List ChatMessage} → ok stop ≢ ok (again messages')
  stop_again h = ground arith

  -- Of a turn that ends for the reason "end_turn" where it has no tool calls: the model is asked
  -- again only with the results of at least one tool.
  pub drain-again :
      (messages : List ChatMessage) (s : Stream)
      → IsTurn EndsTurn s
      → (env : Env) (t : History) (messages' : List ChatMessage)
      → (drain c bridge_url consumer_id task messages s env t).0 ≡ ok (again messages')
      → (outputs : List ToolOutput) × (outputs ≢ [])
        × (messages' ≡ extended c bridge_url consumer_id messages outputs)
  unfolding drain running
  drain-again messages (text_chunk content rest) turn env t messages' h =
      elim (Result-cases
        (publish_event c bridge_url consumer_id task ThoughtEventType.response_chunk content env
          t).0) [
            | inl (u, e) ↦
                drain-again messages rest turn env
                  (publish_event c bridge_url consumer_id task ThoughtEventType.response_chunk
                    content env t).1
                  messages' (ground arith)
            | inr (x, e) ↦ absurd (ground arith)
          ]
  drain-again messages (stream_done reason uses finished) (inl (e, f)) env t messages' h = absurd (
      stop_again (
        subst
          (λ r.
            (drain c bridge_url consumer_id task messages (stream_done r uses finished) env t).0
            ≡ ok (again messages'))
          f h))
  drain-again messages (stream_done reason [] finished) (inr (ne, f)) env t messages' h =
      absurd (ne refl)
  drain-again messages (stream_done reason (u ∷ us) finished) (inr (ne, f)) env t messages' h =
      elim (Bool-cases (reason == "end_turn")) [
        | inl e ↦ absurd (ground arith)
        | inr e ↦ elim (Result-cases (run_tools c bridge_url consumer_id task (u ∷ us) env t).0) [
          | inr (x, g) ↦ absurd (ground arith)
          | inl (outputs, g) ↦ (outputs, run_tools-some u us env t outputs g, ground arith)
        ]
      ]
  drain-again messages (stream_done reason uses (text_chunk _ _)) turn env t messages' h =
      absurd turn
  drain-again messages (stream_done reason uses (stream_done _ _ _)) turn env t messages' h =
      absurd turn
  drain-again messages (stream_done reason uses (broken _)) turn env t messages' h = absurd turn
  drain-again messages finished turn env t messages' h = absurd turn
  drain-again messages (broken x) turn env t messages' h = absurd (ground arith)
