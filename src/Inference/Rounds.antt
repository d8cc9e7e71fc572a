-- ===== src/Inference/Rounds.antt =====
-- The loop of `process_task` ends if the model does.
use belgrade_os.Base.{
  ℕ, zero, suc, ◌+◌, ◌≤◌, ◌<◌, String, ◌==◌, ◌≡◌, ◌≢◌, ◌⊎◌, inl, inr, refl, true, List, [], ◌∷◌,
  arith,
}
use belgrade_os.Wire.{ThoughtEventType, Task, Json}
use belgrade_os.World.{
  Result, ok, raised, Result-cases, Cmd, Stream, text_chunk, stream_done, finished, broken,
  ChatMessage, ToolUse, text,
}
use belgrade_os.Prog.{Env, History}
use belgrade_os.Prog.Emits.{Emits, Extends, same, more}
use belgrade_os.Calls.{running}
use belgrade_os.Calls.Emits.{emits_calls}
use belgrade_os.Codec.{Codec}
use belgrade_os.Inference.Results.{publish_thought, push_tool_call, push_untrusted_tool_call}
use belgrade_os.Inference.{
  Next, stop, again, go_on, Outcome, completed, cancelled, failed, out_of_rounds, cancel_key,
  fetch_tools, publish_event, push, drain, is_set, rounds_loop, finish, process_task,
}
use belgrade_os.Inference.Emissions.{drain-Emits}

le_cases : (a b : ℕ) → (a ≤ b) ⊎ (b < a)
le_cases a b = omega arith

-- How often the model was asked.
abbrev asked : Cmd → ℕ → ℕ
asked (Cmd.generate _ _) n = suc n
asked _ n = n

abbrev pub rounds_used : History → ℕ
rounds_used [] = 0
rounds_used ((c, _) ∷ t) = asked c (rounds_used t)

-- Any call but a question to the model.
abbrev Quiet : Cmd → Type 0
Quiet (Cmd.generate _ _) = ⊥
Quiet _ = Unit

asked-Quiet : (c : Cmd) (n : ℕ) → Quiet c → asked c n ≡ n
asked-Quiet (Cmd.generate _ _) n q = absurd q
asked-Quiet _ n q = refl

rounds_used-Extends : {t u : History} → Extends Quiet t u → rounds_used u ≡ rounds_used t
rounds_used-Extends same = refl
rounds_used-Extends (more {t' = v} c r q e) =
    omega (arith, asked-Quiet c (rounds_used v) q, rounds_used-Extends e)

-- The stream ends the turn: its first StreamDone says `end_turn`, or it has none.
abbrev pub Ends : Stream → Type 0
Ends (text_chunk _ rest) = Ends rest
Ends (stream_done reason _ _) = (reason == "end_turn") ≡ true
Ends finished = Unit
Ends (broken _) = Unit

-- When it has been asked `k` times in the history, the model ends its turn.
abbrev pub EndsWithin : ℕ → Env → Type 0
EndsWithin k env =
    (t : History) (messages : List ChatMessage) (tools : List Json)
    → k ≤ rounds_used t
    → Ends (env t (Cmd.generate messages tools))

module _ (c : Codec) (bridge_url consumer_id : String) (task : Task) where
  pushed : (u : ToolUse) → Emits Quiet (push c bridge_url consumer_id task u)
  unfolding push push_tool_call push_untrusted_tool_call
  pushed u = search emits_calls

  published :
      (type : ThoughtEventType) (content : String)
      → Emits Quiet (publish_event c bridge_url consumer_id task type content)
  unfolding publish_event publish_thought
  published type content = search emits_calls

  drained :
      (messages : List ChatMessage) (s : Stream)
      → Emits Quiet (drain c bridge_url consumer_id task messages s)
  drained =
      drain-Emits c bridge_url consumer_id task (λ _ _. tt) (λ _ _. tt) pushed
        (published ThoughtEventType.response_chunk)

  -- An ending stream asks for no further round.
  drain-Ends :
      (messages next : List ChatMessage) (s : Stream) (env : Env) (t : History)
      → Ends s
      → (drain c bridge_url consumer_id task messages s env t).0 ≢ ok (again next)
  unfolding drain running
  drain-Ends messages next (text_chunk content rest) env t h = ground (
    arith,
    drain-Ends messages next rest env
        (publish_event c bridge_url consumer_id task ThoughtEventType.response_chunk content env
          t).1,
  )
  drain-Ends messages next (stream_done reason uses rest) env t h = ground arith
  drain-Ends messages next finished env t h = ground arith
  drain-Ends messages next (broken exc) env t h = ground arith

  module _ (k : ℕ) (env : Env) (ends : EndsWithin k env) (tools : List Json) where
    after_drain :
        (rest : List ChatMessage → History → Result Outcome × History) (r : Result Next)
        (t : History)
        → ((messages : List ChatMessage)
            → r ≡ ok (again messages)
            → (rest messages t).0 ≢ ok out_of_rounds)
        → (elim r as (λ _. Result Outcome × History) [
          | ok next ↦ go_on (λ ms _ u. rest ms u) next env t
          | raised x ↦ (raised x, t)
        ]).0
          ≢ ok out_of_rounds
    unfolding running
    after_drain rest (ok stop) t h = λ e. cc
    after_drain rest (ok (again messages)) t h = h messages refl
    after_drain rest (raised x) t h = λ e. cc

    rounds_loop-ends :
        (fuel : ℕ) (messages : List ChatMessage) (t : History)
        → rounds_used t ≤ k
        → k < fuel + rounds_used t
        → (rounds_loop c bridge_url consumer_id fuel task tools messages env t).0 ≢ ok out_of_rounds
    unfolding rounds_loop is_set running
    rounds_loop-ends zero messages t le lt = absurd (omega arith)
    rounds_loop-ends (suc fuel) messages t le lt =
        let key = Cmd.redis_get (cancel_key task.task_id) in
        let u : History = (key, env t key) ∷ t in
        let question = Cmd.generate messages tools in
        let stream = env u question in
        let v : History = (question, stream) ∷ u in
        let r = drain c bridge_url consumer_id task messages stream env v in
        ground (
          arith,
          after_drain (λ ms w. rounds_loop c bridge_url consumer_id fuel task tools ms env w) r.0
              r.1
              (λ ms asked_again. elim (le_cases k (rounds_used t)) [
                | inl over ↦
                    absurd
                      (drain-Ends messages ms stream env v (ends u messages tools over) asked_again)
                | inr below ↦
                    rounds_loop-ends fuel ms r.1
                      (omega (arith, rounds_used-Extends ((drained messages stream).at env v)))
                      (omega (arith, rounds_used-Extends ((drained messages stream).at env v)))
              ]),
        )

  fetched : Emits Quiet (fetch_tools c bridge_url consumer_id)
  unfolding fetch_tools
  fetched = search emits_calls

  finish-out_of_rounds :
      (outcome : Outcome) (env : Env) (t : History)
      → outcome ≢ out_of_rounds
      → (finish c bridge_url consumer_id task outcome env t).0 ≢ ok out_of_rounds
  unfolding finish running
  finish-out_of_rounds completed env t h = ground arith
  finish-out_of_rounds cancelled env t h = ground arith
  finish-out_of_rounds failed env t h = ground arith
  finish-out_of_rounds out_of_rounds env t h = absurd (h refl)

  -- If the model ends its turn whenever it has been asked `k` times before, the loop needs no more
  -- rounds than that: a task that is given enough of them to pass `k` questions comes to an end, by
  -- completion, cancellation or failure, whatever the tools, Redis and the Bridge answer.
  pub process_task-ends :
      (k : ℕ) (env : Env)
      → EndsWithin k env
      → (rounds : ℕ) (t : History) → rounds_used t ≤ k
      → k < rounds + rounds_used t
      → (process_task c bridge_url consumer_id rounds task env t).0 ≢ ok out_of_rounds
  unfolding process_task running
  process_task-ends k env ends rounds t le lt =
      let fetch = fetch_tools c bridge_url consumer_id env t in
      let quiet = rounds_used-Extends (fetched.at env t) in
      elim (Result-cases fetch.0) [
        | inr (x, e) ↦ ground arith
        | inl (tools, e) ↦
            let start : List ChatMessage =
              record { role = "user"; content = text task.prompt } ∷ [] in
            let loop = rounds_loop c bridge_url consumer_id rounds task tools start env fetch.1 in
            let loop_ends =
              rounds_loop-ends k env ends tools rounds start fetch.1 (omega (arith, quiet))
                (omega (arith, quiet)) in
            elim (Result-cases loop.0) [
              | inl (outcome, f) ↦
                  ground (arith, loop_ends, finish-out_of_rounds outcome env loop.1)
              | inr (x, f) ↦
                  let report =
                    publish_event c bridge_url consumer_id task ThoughtEventType.error x.text env
                      loop.1 in
                  ground (arith, finish-out_of_rounds failed env report.1)
            ]
      ]
