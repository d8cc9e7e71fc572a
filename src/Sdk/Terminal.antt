-- ===== src/Sdk/Terminal.antt =====
-- What `InferenceAdapter.stream` yields, and what it leaves behind.
use belgrade_os.Base.{
  ℕ, zero, suc, ◌≡◌, ◌⊎◌, inl, inr, subst, Bool-cases, true, false, Option, none, some, List, [],
  ◌∷◌, String, arith,
}
use belgrade_os.Base.Text.{Bytes}
use belgrade_os.Wire.{ThoughtEvent}
use belgrade_os.World.{Exn, Result, Result-cases, ok, raised, Cmd}
use belgrade_os.Prog.{try_finally, ◌>>◌, Prog, Env, History}
use belgrade_os.Prog.Emits.{Emits, Extends}
use belgrade_os.Calls.{running, unsubscribe, close_pubsub}
use belgrade_os.Calls.Emits.{emits_calls}
use belgrade_os.Codec.{Codec}
use belgrade_os.Sdk.Context.{Context, need_redis}
use belgrade_os.Sdk.Reading.{
  Events, is_terminal, next_message, handle_message, stream_loop, stream_body, stream, channel,
}

-- One terminal event, at the end.
abbrev pub IsRun : List ThoughtEvent → Type 0
IsRun [] = ⊥
IsRun (event ∷ []) = is_terminal event.type ≡ true
IsRun (event ∷ event' ∷ events) = (is_terminal event.type ≡ false) × IsRun (event' ∷ events)

abbrev GivesRuns : Prog Events → Type 0
GivesRuns m =
    (env : Env) (t : History) (events : List ThoughtEvent)
    → (m env t).0 ≡ ok (some events)
    → IsRun events

-- What the loop asks for.
abbrev pub Quiet : Cmd → Type 0
Quiet Cmd.get_message = Unit
Quiet Cmd.monotonic_ns = Unit
Quiet _ = ⊥

-- The last calls of a stream: it leaves the channel, and closes the connection unless that raised.
abbrev pub IsClosed : String → History → History → Type 0
IsClosed task_id between t' =
    ((x : Exn) × (t' ≡ (Cmd.unsubscribe (channel task_id), raised x) ∷ between))
    ⊎ ((r : Result {0} Unit) × (t'
          ≡ (Cmd.close_pubsub, r) ∷ (Cmd.unsubscribe (channel task_id), ok tt) ∷ between))

IsClosed-always :
    (task_id : String) (m : Prog Events) (env : Env) (t : History)
    → IsClosed task_id
        (m env t).1
        (try_finally m (unsubscribe (channel task_id) >> close_pubsub) env t).1
unfolding running
IsClosed-always task_id m env t =
    let between = (m env t).1 in
    elim (Result-cases (env (m env t).1 (Cmd.unsubscribe (channel task_id)))) [
      | inr (x, e) ↦ inl (x, ground arith)
      | inl (u, e) ↦
          elim (Result-cases
            (env ((Cmd.unsubscribe (channel task_id), ok tt) ∷ (m env t).1) Cmd.close_pubsub)) [
              | inl (v, f) ↦ inr (ok tt, ground arith)
              | inr (x, f) ↦ inr (raised x, ground arith)
            ]
    ]

module _ (c : Codec) where
  pub next_message-Quiet : Emits Quiet next_message
  unfolding next_message
  next_message-Quiet = search emits_calls depth 8

  handle_message-Quiet :
      (rest : Prog Events)
      → Emits Quiet rest
      → (o : Option Bytes) → Emits Quiet (handle_message c rest o)
  unfolding handle_message
  handle_message-Quiet rest h none = h
  handle_message-Quiet rest h (some payload) = search emits_calls depth 10

  stream_loop-Quiet : (rounds deadline : ℕ) → Emits Quiet (stream_loop c rounds deadline)
  unfolding stream_loop
  stream_loop-Quiet zero deadline = search emits_calls
  stream_loop-Quiet (suc rounds) deadline =
      search (emits_calls, next_message-Quiet, handle_message-Quiet, stream_loop-Quiet rounds) depth
        10

  stream_body-Quiet :
      (rounds timeout_ns : ℕ) (env : Env) (t : History)
      → Extends Quiet t (stream_body c rounds timeout_ns env t).1
  unfolding stream_body
  stream_body-Quiet rounds timeout_ns =
      let emits : Emits Quiet (stream_body c rounds timeout_ns) =
        search (emits_calls, stream_loop-Quiet rounds) depth 8 in
      emits.at

  -- Without Redis a stream makes no call. With it, where the subscription raises, it makes no other one. Else,
  -- whatever Redis and the clock answer, and whether it ends by its last event, by the timeout or by
  -- an exception, it reads and at last leaves the channel and closes the connection, or the leaving
  -- raises.
  pub stream-closes :
      (rounds : ℕ) (ctx : Context) (task_id : String) (timeout_ns : ℕ) (env : Env) (t : History)
      → let subscribed = env t (Cmd.subscribe (channel task_id)) in
        let t' = (stream c rounds ctx task_id timeout_ns env t).1 in
        ((ctx.has_redis ≡ false) × (t' ≡ t))
        ⊎ ((x : Exn) × (ctx.has_redis ≡ true)
            × (subscribed ≡ raised x)
            × (t' ≡ (Cmd.subscribe (channel task_id), raised x) ∷ t))
        ⊎ ((between : History) × (ctx.has_redis ≡ true)
            × Extends Quiet ((Cmd.subscribe (channel task_id), ok tt) ∷ t) between
            × IsClosed task_id between t')
  unfolding stream need_redis running
  stream-closes rounds ctx task_id timeout_ns env t = elim (Bool-cases ctx.has_redis) [
    | inr e ↦ inl (e, ground arith)
    | inl e ↦ elim (Result-cases (env t (Cmd.subscribe (channel task_id)))) [
      | inr (x, f) ↦ inr (inl (x, e, f, ground arith))
      | inl (u, f) ↦
          let t₁ : History = (Cmd.subscribe (channel task_id), ok tt) ∷ t in
          inr (
            inr (
              (stream_body c rounds timeout_ns env t₁).1,
              e,
              stream_body-Quiet rounds timeout_ns env t₁,
              (let same : (try_finally (stream_body c rounds timeout_ns)
                        (unsubscribe (channel task_id) >> close_pubsub) env t₁).1
                      ≡ (stream c rounds ctx task_id timeout_ns env t).1 =
                    ground arith in
                  subst (IsClosed task_id (stream_body c rounds timeout_ns env t₁).1) same
                    (IsClosed-always task_id (stream_body c rounds timeout_ns) env t₁)),
            ))
    ]
  ]
