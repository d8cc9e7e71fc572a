-- ===== src/Inference/Acks.antt =====
-- For which tasks the inference worker has called XACK.
use belgrade_os.Base.{
  ℕ, zero, suc, String, ◌==◌, ◌≡◌, ◌⊎◌, inl, inr, refl, false, Option-cases, none, some, List, ◌∷◌,
  arith,
}
use belgrade_os.Base.Dict.{lookup}
use belgrade_os.Base.Text.{Bytes}
use belgrade_os.Wire.{ThoughtEventType, Task, Json}
use belgrade_os.World.{Cmd, Message, Exn, Result-cases, ok, raised, ToolUse, Stream, ChatMessage}
use belgrade_os.Prog.{Env, History}
use belgrade_os.Prog.Emits.{Emits, Extends, same, more}
use belgrade_os.Calls.{running}
use belgrade_os.Calls.Emits.{emits_calls}
use belgrade_os.Codec.{Codec}
use belgrade_os.Delivery.{delivered, xack_calls, IsSettled, LacksData}
use belgrade_os.Streams.{inbound_stream}
use belgrade_os.Inference.Results.{
  publish_thought, push_tool_call, push_untrusted_tool_call, read_task, task_of, data_of,
}
use belgrade_os.Inference.{
  consumer_group, Outcome, completed, fetch_tools, publish_event, push, drain, rounds_loop, finish,
  process_task, handle_task, consume_one, consumer_loop,
}
use belgrade_os.Inference.Emissions.{drain-Emits, is_set-Emits, go_on-Emits}

-- A call that neither reads tasks nor calls XACK for them.
abbrev Aside : Cmd → Type 0
Aside (Cmd.xreadgroup stream _ _) = (stream == inbound_stream) ≡ false
Aside (Cmd.xack stream _ _) = (stream == inbound_stream) ≡ false
Aside _ = Unit

Aside-delivered :
    {t t' : History} → Extends Aside t t' → delivered inbound_stream t' ≡ delivered inbound_stream t
Aside-delivered same = refl
Aside-delivered (more (Cmd.xreadgroup s g c) r p k) = ground (arith, p, Aside-delivered k)
Aside-delivered (more _ r p k) = Aside-delivered k

Aside-xack_calls :
    {t t' : History}
    → Extends Aside t t'
    → xack_calls inbound_stream t' ≡ xack_calls inbound_stream t
Aside-xack_calls same = refl
Aside-xack_calls (more (Cmd.xack s g m) r p k) = ground (arith, p, Aside-xack_calls k)
Aside-xack_calls (more _ r p k) = Aside-xack_calls k

-- XACK was called for all entries but the last, and the last has data that are no task.
abbrev pub LacksTask : Codec → History → Type 0
LacksTask c t =
    (m : Message) × (payload : Bytes) × (x : Exn) × (delivered inbound_stream t
      ≡ m.id ∷ xack_calls inbound_stream t)
    × (lookup "data" m.fields ≡ some payload)
    × (c.parse_task payload ≡ raised x)

abbrev pub AreDone : Codec → History → Type 0
AreDone c t = IsSettled inbound_stream t ⊎ LacksData inbound_stream t ⊎ LacksTask c t

module _ (c : Codec) (bridge_url consumer_id : String) where
  publish_event-Aside :
      (task : Task) (type : ThoughtEventType) (content : String)
      → Emits Aside (publish_event c bridge_url consumer_id task type content)
  unfolding publish_event publish_thought
  publish_event-Aside task type content = search emits_calls

  push-Aside : (task : Task) (u : ToolUse) → Emits Aside (push c bridge_url consumer_id task u)
  unfolding push push_untrusted_tool_call push_tool_call
  push-Aside task u = search emits_calls

  drain-Aside :
      (task : Task) (messages : List ChatMessage) (s : Stream)
      → Emits Aside (drain c bridge_url consumer_id task messages s)
  drain-Aside task =
      drain-Emits c bridge_url consumer_id task (λ _ _. refl) (λ _ _. refl) (push-Aside task)
        (publish_event-Aside task ThoughtEventType.response_chunk)

  rounds_loop-Aside :
      (rounds : ℕ) (task : Task) (tools : List Json) (messages : List ChatMessage)
      → Emits Aside (rounds_loop c bridge_url consumer_id rounds task tools messages)
  unfolding rounds_loop
  rounds_loop-Aside zero task tools messages = search emits_calls
  rounds_loop-Aside (suc rounds) task tools messages =
      search
        (
          emits_calls,
          is_set-Emits,
          publish_event-Aside,
          drain-Aside,
          go_on-Emits,
          rounds_loop-Aside rounds,
        )
        depth 10

  finish-Aside :
      (task : Task) (outcome : Outcome) → Emits Aside (finish c bridge_url consumer_id task outcome)
  unfolding finish
  finish-Aside task completed = search (emits_calls, publish_event-Aside)
  finish-Aside task _ = search emits_calls

  process_task-Aside :
      (rounds : ℕ) (task : Task) → Emits Aside (process_task c bridge_url consumer_id rounds task)
  unfolding process_task fetch_tools
  process_task-Aside rounds task =
      search (emits_calls, rounds_loop-Aside, publish_event-Aside, finish-Aside) depth 8

  handle_task-acks :
      (rounds : ℕ) (id : String) (payload : Bytes) (task : Task) (env : Env) (t : History)
      → c.parse_task payload ≡ ok task
      → let t' = (handle_task c bridge_url consumer_id rounds (some (id, payload)) env t).1 in
        (delivered inbound_stream t' ≡ delivered inbound_stream t)
        × (xack_calls inbound_stream t' ≡ id ∷ xack_calls inbound_stream t)
  unfolding running handle_task
  handle_task-acks rounds id payload task env t e =
      let aside = (process_task-Aside rounds task).at env t in
      ground (arith, e, Aside-delivered aside, Aside-xack_calls aside)

  consume_one-acks :
      (rounds : ℕ) (env : Env) (t : History)
      → IsSettled inbound_stream t
      → let (r, t') = consume_one c bridge_url consumer_id rounds env t in
        AreDone c t' × (r ≡ ok tt → IsSettled inbound_stream t')
  unfolding running consume_one read_task task_of data_of handle_task
  consume_one-acks rounds env t h =
      elim (Result-cases (env t (Cmd.xreadgroup inbound_stream consumer_group consumer_id))) [
        | inl (none, e) ↦ ground arith
        | inl (some m, e) ↦ elim (Option-cases (lookup "data" m.fields)) [
          | inl absent ↦ rw (e, absent) (inr (inl (m, ground arith, absent)), ground arith)
          | inr (payload, present) ↦ elim (Result-cases (c.parse_task payload)) [
            | inr (x, f) ↦ (
              inr (inr (m, payload, x, ground (arith, e, present, f), present, f)),
              ground (arith, e, present, f),
            )
            | inl (task, f) ↦ ground (
              arith,
              handle_task-acks rounds m.id payload task env
                  (read_task consumer_group consumer_id env t).1 f,
            )
          ]
        ]
        | inr (x, e) ↦ ground arith
      ]

  -- The worker starts with XACK called for every task that was read. Then after any number of turns,
  -- and with any bound on the rounds of each task, it has been called for every entry, once and in
  -- order, but for a last one without the field `data` or whose data are no task; and while the
  -- loop goes on there is no such entry.
  pub consumer_loop-AreDone :
      (turns rounds : ℕ) (env : Env) (t : History)
      → IsSettled inbound_stream t
      → let (r, t') = consumer_loop c bridge_url consumer_id turns rounds env t in
        AreDone c t' × (r ≡ ok tt → IsSettled inbound_stream t')
  unfolding running consumer_loop
  consumer_loop-AreDone zero rounds env t h = (inl h, λ _. h)
  consumer_loop-AreDone (suc turns) rounds env t h = ground (
    arith,
    consume_one-acks rounds env t h,
    consumer_loop-AreDone turns rounds env (consume_one c bridge_url consumer_id rounds env t).1,
  )
