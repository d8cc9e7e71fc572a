-- ===== src/Inference/Publishing.antt =====
-- What the worker publishes for a task that the model answers with a text.
use belgrade_os.Base.{
  ℕ, suc, String, ◌<>◌, ◌==◌, ◌≡◌, refl, inl, inr, ap, ◌∙◌, eq_refl, append_assoc, none, List, [],
  ◌∷◌, ◌++◌, map, if◌then◌else◌, arith,
}
use belgrade_os.Base.Text.{Bytes}
use belgrade_os.Wire.{Task, ThoughtEvent, ThoughtEventType, Json}
use belgrade_os.World.{
  Result-cases, ok, Cmd, ChatMessage, Stream, text, text_chunk, stream_done, finished,
}
use belgrade_os.Prog.{pure, Env, History}
use belgrade_os.Prog.Runs.{bind_ok}
use belgrade_os.Calls.{running}
use belgrade_os.Codec.{Codec}
use belgrade_os.Inference.Results.{publish_thought}
use belgrade_os.Inference.Tools.{tools_of}
use belgrade_os.Inference.{
  stop, completed, thought, cancel_key, fetch_tools, publish_event, drain, is_set, rounds_loop,
  finish, process_task,
}

-- The payloads that were published on a channel, the oldest first.
abbrev pub published : String → History → List Bytes
published channel [] = []
published channel ((Cmd.publish s payload, _) ∷ t) =
    let rest = published channel t in if s == channel then rest ++ payload ∷ [] else rest
published channel (_ ∷ t) = published channel t

-- The stream of a turn that says these texts and ends.
abbrev pub saying : List String → Stream
saying [] = stream_done "end_turn" [] finished
saying (content ∷ texts) = text_chunk content (saying texts)

-- The events of such a task.
abbrev pub events_of : Task → List String → List ThoughtEvent
events_of task [] = thought task ThoughtEventType.done "" ∷ []
events_of task (content ∷ texts) =
    thought task ThoughtEventType.response_chunk content ∷ events_of task texts

-- Redis takes what is published, the task is not cancelled, and the model says these texts.
pub record Says (task : Task) (texts : List String) (env : Env) : Type 0 where
  pub takes :
      (t : History) (channel : String) (payload : Bytes)
      → env t (Cmd.publish channel payload) ≡ ok tt
  pub goes_on : (t : History) → env t (Cmd.redis_get (cancel_key task.task_id)) ≡ ok none
  pub answers :
      (t : History) (messages : List ChatMessage) (tools : List Json)
      → env t (Cmd.generate messages tools) ≡ saying texts

module _ (c : Codec) (bridge_url consumer_id : String) (task : Task) (texts : List String)
    (env : Env) (says : Says task texts env) where
  abbrev channel_of : String
  channel_of = "sse:" <> task.task_id

  abbrev after_event : ThoughtEventType → String → History → History
  after_event type content t =
      (Cmd.publish channel_of (c.thought_bytes (thought task type content)), ok tt) ∷ t

  publish_event_lem :
      (type : ThoughtEventType) (content : String) (t : History)
      → publish_event c bridge_url consumer_id task type content env t
        ≡ (ok tt, after_event type content t)
  unfolding publish_event publish_thought running
  publish_event_lem type content t =
      rw (says.takes t channel_of (c.thought_bytes (thought task type content))) refl

  published-after :
      (type : ThoughtEventType) (content : String) (t : History)
      → published channel_of (after_event type content t)
        ≡ published channel_of t ++ c.thought_bytes (thought task type content) ∷ []
  published-after type content t = rw (eq_refl channel_of) refl

  -- The history after these texts and the end of the turn.
  abbrev said : List String → History → History
  said [] t = t
  said (content ∷ rest) t = said rest (after_event ThoughtEventType.response_chunk content t)

  drain_lem :
      (messages : List ChatMessage) (rest : List String) (t : History)
      → drain c bridge_url consumer_id task messages (saying rest) env t ≡ (ok stop, said rest t)
  unfolding drain pure
  drain_lem messages [] t = refl
  drain_lem messages (content ∷ rest) t =
      bind_ok _ _ env t tt _ (publish_event_lem ThoughtEventType.response_chunk content t)
      ∙ (drain_lem messages rest (after_event ThoughtEventType.response_chunk content t))

  abbrev payloads : List String → List Bytes
  payloads rest = map c.thought_bytes (events_of task rest)

  published-said :
      (rest : List String) (t : History)
      → published channel_of (after_event ThoughtEventType.done "" (said rest t))
        ≡ published channel_of t ++ payloads rest
  published-said [] t = published-after ThoughtEventType.done "" t
  published-said (content ∷ rest) t =
      published-said rest (after_event ThoughtEventType.response_chunk content t)
      ∙ ap (λ sent. sent ++ payloads rest)
          (published-after ThoughtEventType.response_chunk content t)
      ∙ append_assoc (published channel_of t) _ (payloads rest)

  fetch_tools_lem :
      (t : History)
      → (tools : List Json) × (fetch_tools c bridge_url consumer_id env t ≡ (
        ok tools,
        (Cmd.http_get (bridge_url <> "/v1/tools"), env t (Cmd.http_get (bridge_url <> "/v1/tools")))
            ∷ t,
      ))
  unfolding fetch_tools running
  fetch_tools_lem t = elim (Result-cases (env t (Cmd.http_get (bridge_url <> "/v1/tools")))) [
    | inr (x, e) ↦ ([], ground arith)
    | inl (body, e) ↦ elim (Result-cases (tools_of c body)) [
      | inr (x, f) ↦ ([], ground arith)
      | inl (tools, f) ↦ (tools, ground arith)
    ]
  ]

  abbrev first_message : List ChatMessage
  first_message = record { role = "user"; content = text task.prompt } ∷ []

  rounds_loop_lem :
      (rounds : ℕ) (tools : List Json) (t : History)
      → rounds_loop c bridge_url consumer_id (suc rounds) task tools first_message env t ≡ (
        ok completed,
        said texts (
            (Cmd.generate first_message tools, saying texts)
            ∷ (Cmd.redis_get (cancel_key task.task_id), ok none)
            ∷ t),
      )
  unfolding rounds_loop is_set running
  rounds_loop_lem rounds tools t =
      let t₁ : History = (Cmd.redis_get (cancel_key task.task_id), ok none) ∷ t in
      ground (
        arith,
        says.goes_on t,
        says.answers t₁ first_message tools,
        drain_lem first_message texts ((Cmd.generate first_message tools, saying texts) ∷ t₁),
      )

  -- The history up to the answer of the model.
  abbrev asked_at : List Json → History → History
  asked_at tools t =
      (Cmd.generate first_message tools, saying texts)
      ∷ (Cmd.redis_get (cancel_key task.task_id), ok none)
      ∷ (Cmd.http_get (bridge_url <> "/v1/tools"), env t (Cmd.http_get (bridge_url <> "/v1/tools")))
      ∷ t

  process_task_lem :
      (rounds : ℕ) (t : History)
      → (tools : List Json) × (process_task c bridge_url consumer_id (suc rounds) task env t
          ≡ (ok completed, after_event ThoughtEventType.done "" (said texts (asked_at tools t))))
  unfolding process_task finish running
  process_task_lem rounds t =
      let (tools, e) = fetch_tools_lem t in
      let t₁ : History =
        (Cmd.http_get (bridge_url <> "/v1/tools"), env t (Cmd.http_get (bridge_url <> "/v1/tools")))
        ∷ t in
      (
        tools,
        ground (
          arith,
          e,
          rounds_loop_lem rounds tools t₁,
          publish_event_lem ThoughtEventType.done "" (said texts (asked_at tools t)),
        ),
      )

  -- A task that the model answers with texts, while Redis takes what is published and does not say
  -- that the task is cancelled, completes, and what was published on its channel since is one
  -- chunk for each text, in order, and then DONE.
  pub process_task-publishes :
      (rounds : ℕ) (t : History)
      → let (r, t') = process_task c bridge_url consumer_id (suc rounds) task env t in
        (r ≡ ok completed) × (published channel_of t' ≡ published channel_of t ++ payloads texts)
  process_task-publishes rounds t =
      let (tools, e) = process_task_lem rounds t in
      rw e (refl, published-said texts (asked_at tools t))
