-- ===== src/Sdk/Hearing.antt =====
-- `InferenceAdapter.await_result` on the events that a task's channel delivers.
use belgrade_os.Base.{
  ℕ, zero, suc, ◌+◌, ◌≡◌, refl, ap, subst, true, false, none, some, List, [], ◌∷◌, map, String,
  ◌<>◌, leb, arith,
}
use belgrade_os.Base.Text.{Bytes}
use belgrade_os.Wire.{Task, ThoughtEvent, ThoughtEventType}
use belgrade_os.World.{Exn, timeout_error, ok, raised, Cmd}
use belgrade_os.Prog.{Env, History}
use belgrade_os.Calls.{running}
use belgrade_os.Codec.{Codec}
use belgrade_os.Inference.{thought, process_task}
use belgrade_os.Inference.Publishing.{published, events_of, Says, process_task-publishes}
use belgrade_os.Sdk.Context.{Context, need_redis}
use belgrade_os.Sdk.Reading.{
  text, next_message, handle_message, stream_loop, stream_body, stream, channel, first_error,
  text_of, answer, result_of, await_result,
}

-- From the history on, before the deadline and within this many turns, the subscriber gets these
-- payloads in this order, with pauses between them that end by no message or by a timeout.
pub data Hears (env : Env) (deadline : ℕ) : ℕ → List Bytes → History → Type 0 where
  heard : {rounds : ℕ} {t : History} → Hears env deadline rounds [] t
  pause :
      {rounds : ℕ} {payloads : List Bytes} {t : History} (now : ℕ)
      → env t Cmd.monotonic_ns ≡ now
      → leb deadline now ≡ false
      → env ((Cmd.monotonic_ns, now) ∷ t) Cmd.get_message ≡ ok none
      → Hears env deadline rounds payloads
          ((Cmd.get_message, ok none) ∷ (Cmd.monotonic_ns, now) ∷ t)
      → Hears env deadline (suc rounds) payloads t
  late :
      {rounds : ℕ} {payloads : List Bytes} {t : History} (now : ℕ) (x : Exn)
      → x.fault ≡ timeout_error
      → env t Cmd.monotonic_ns ≡ now
      → leb deadline now ≡ false
      → env ((Cmd.monotonic_ns, now) ∷ t) Cmd.get_message ≡ raised x
      → Hears env deadline rounds payloads
          ((Cmd.get_message, raised x) ∷ (Cmd.monotonic_ns, now) ∷ t)
      → Hears env deadline (suc rounds) payloads t
  hears :
      {rounds : ℕ} {payloads : List Bytes} {t : History} (now : ℕ) (payload : Bytes)
      → env t Cmd.monotonic_ns ≡ now
      → leb deadline now ≡ false
      → env ((Cmd.monotonic_ns, now) ∷ t) Cmd.get_message ≡ ok (some payload)
      → Hears env deadline rounds payloads
          ((Cmd.get_message, ok (some payload)) ∷ (Cmd.monotonic_ns, now) ∷ t)
      → Hears env deadline (suc rounds) (payload ∷ payloads) t

-- Parsing gives back what was serialised.
abbrev pub ReadsThoughts : Codec → Type 0
ReadsThoughts c = (event : ThoughtEvent) → c.parse_thought (c.thought_bytes event) ≡ ok event

no_turns :
    {env : Env} {deadline : ℕ} {payload : Bytes} {payloads : List Bytes} {t : History}
    → Hears env deadline 0 (payload ∷ payloads) t
    → ⊥
no_turns h = elim h [ ]

module _ (c : Codec) (reads : ReadsThoughts c) (task : Task) (env : Env) (deadline : ℕ) where
  hear :
      (texts : List String) (rounds : ℕ) (t : History)
      → Hears env deadline rounds (map c.thought_bytes (events_of task texts)) t
      → (stream_loop c rounds deadline env t).0 ≡ ok (some (events_of task texts))
  unfolding stream_loop handle_message next_message running
  hear [] zero t h = absurd (no_turns h)
  hear (content ∷ texts) zero t h = absurd (no_turns h)
  hear [] (suc rounds) t (hears now payload e b m h) =
      ground (arith, reads (thought task ThoughtEventType.done ""))
  hear (content ∷ texts) (suc rounds) t (hears now payload e b m h) =
      ground
        (arith, reads (thought task ThoughtEventType.response_chunk content), hear texts rounds _ h)
  hear [] (suc rounds) t (pause now e b m h) = ground (arith, hear [] rounds _ h)
  hear (content ∷ texts) (suc rounds) t (pause now e b m h) =
      ground (arith, hear (content ∷ texts) rounds _ h)
  hear [] (suc rounds) t (late now x f e b m h) = ground (arith, hear [] rounds _ h)
  hear (content ∷ texts) (suc rounds) t (late now x f e b m h) =
      ground (arith, hear (content ∷ texts) rounds _ h)

abbrev pub joined : List String → String
joined [] = ""
joined (content ∷ texts) = content <> joined texts

text_of-events_of :
    (task : Task) (texts : List String) → text_of (events_of task texts) ≡ joined texts
unfolding text_of
text_of-events_of task [] = refl
text_of-events_of task (content ∷ texts) = ap (λ s. content <> s) (text_of-events_of task texts)

first_error-events_of :
    (task : Task) (texts : List String) → first_error (events_of task texts) ≡ none
unfolding first_error
first_error-events_of task [] = refl
first_error-events_of task (content ∷ texts) = first_error-events_of task texts

-- The context has Redis, which takes the subscription at this history and its end at any time.
pub record Serves (ctx : Context) (task_id : String) (env : Env) (t : History) : Type 0 where
  pub has : ctx.has_redis ≡ true
  pub subscribes : env t (Cmd.subscribe (channel task_id)) ≡ ok tt
  pub leaves : (u : History) → env u (Cmd.unsubscribe (channel task_id)) ≡ ok tt
  pub closes : (u : History) → env u Cmd.close_pubsub ≡ ok tt

abbrev pub subscribed : String → History → History
subscribed task_id t = (Cmd.subscribe (channel task_id), ok tt) ∷ t

module _ (c : Codec) (reads : ReadsThoughts c) (task : Task) (texts : List String) (ctx : Context)
    (env : Env) (t : History) (serves : Serves ctx task.task_id env t) where
  stream_lem :
      (rounds timeout_ns now : ℕ)
      → env (subscribed task.task_id t) Cmd.monotonic_ns ≡ now
      → Hears env
          (now + timeout_ns)
          rounds
          (map c.thought_bytes (events_of task texts))
          ((Cmd.monotonic_ns, now) ∷ subscribed task.task_id t)
      → (stream c rounds ctx task.task_id timeout_ns env t).0 ≡ ok (some (events_of task texts))
  unfolding stream stream_body need_redis running
  stream_lem rounds timeout_ns now e h =
      let t₁ : History = (Cmd.monotonic_ns, now) ∷ subscribed task.task_id t in
      let t₂ = (stream_loop c rounds (now + timeout_ns) env t₁).1 in
      ground (
        arith,
        e,
        serves.has,
        serves.subscribes,
        hear c reads task env (now + timeout_ns) texts rounds t₁ h,
        serves.leaves (stream_loop c rounds (now + timeout_ns) env t₁).1,
        serves.closes (
            (Cmd.unsubscribe (channel task.task_id), ok tt)
            ∷ (stream_loop c rounds (now + timeout_ns) env t₁).1),
      )

  -- The text of an answer comes back. If the model answers a task with texts, Redis takes what the
  -- worker publishes and the task is not cancelled, and if the subscriber of the task's channel
  -- gets what the worker has published, in order and before the deadline, with any pauses, then
  -- `await_result` in the mode "text" returns the texts, joined.
  pub await_result-process_task :
      (worker : Env) (bridge_url consumer_id : String) (worker_rounds : ℕ)
      → Says task texts worker
      → (rounds timeout_ns now : ℕ) → env (subscribed task.task_id t) Cmd.monotonic_ns ≡ now
      → Hears env
          (now + timeout_ns)
          rounds
          (published
            (channel task.task_id)
            (process_task c bridge_url consumer_id (suc worker_rounds) task worker []).1)
          ((Cmd.monotonic_ns, now) ∷ subscribed task.task_id t)
      → (await_result c rounds ctx task.task_id "text" timeout_ns env t).0
        ≡ ok (some (text (joined texts)))
  unfolding await_result result_of answer running
  await_result-process_task worker bridge_url consumer_id worker_rounds says rounds timeout_ns now e
        h =
      let same =
        (process_task-publishes c bridge_url consumer_id task texts worker says worker_rounds
          []).1 in
      ground (
        arith,
        stream_lem rounds timeout_ns now e (
            subst
              (λ ps.
                Hears env (now + timeout_ns) rounds ps
                  ((Cmd.monotonic_ns, now) ∷ subscribed task.task_id t))
              same h),
        first_error-events_of task texts,
        text_of-events_of task texts,
      )
