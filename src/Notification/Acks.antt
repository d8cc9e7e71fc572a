-- ===== src/Notification/Acks.antt =====
-- The notification service goes on whatever fails, and calls XACK for what it reads.
use belgrade_os.Base.{
  ℕ, zero, suc, String, ◌≡◌, refl, Option-cases, none, some, ◌∷◌, inl, inr, arith,
}
use belgrade_os.Base.Dict.{lookup}
use belgrade_os.Base.Text.{Bytes}
use belgrade_os.World.{Cmd, Result-cases, ok}
use belgrade_os.Prog.{Env, History}
use belgrade_os.Codec.{Codec}
use belgrade_os.Calls.{running}
use belgrade_os.Delivery.{readable, xack_calls}
use belgrade_os.Streams.{notifications_stream}
use belgrade_os.Notification.{
  send, process_notification, attempt, handle_entry, move_to_failed, payload_of, read_notification,
  consume_one, consumer_loop, consumer_group,
}

module _ (c : Codec) (base_url topic : String) where
  handle_entry-acks :
      (id : String) (payload : Bytes) (env : Env) (t : History)
      → let t' = (handle_entry c base_url topic (some (id, payload)) env t).1 in
        (readable notifications_stream t' ≡ readable notifications_stream t)
        × (xack_calls notifications_stream t' ≡ id ∷ xack_calls notifications_stream t)
  unfolding running handle_entry attempt process_notification send move_to_failed
  handle_entry-acks id payload env t = ground arith

  consume_one-acks :
      (worker_id : String) (env : Env) (t : History)
      → readable notifications_stream t ≡ xack_calls notifications_stream t
      → let (r, t') = consume_one c base_url topic worker_id env t in
        (r ≡ ok tt) × (readable notifications_stream t' ≡ xack_calls notifications_stream t')
  unfolding running consume_one read_notification handle_entry payload_of
  consume_one-acks worker_id env t h =
      elim (Result-cases (env t (Cmd.xreadgroup notifications_stream consumer_group worker_id))) [
        | inl (none, e) ↦ ground arith
        | inl (some m, e) ↦ elim (Option-cases (lookup "data" m.fields)) [
          | inl absent ↦ ground arith
          | inr (payload, present) ↦
              ground
                (arith, handle_entry-acks m.id payload env (read_notification worker_id env t).1)
        ]
        | inr (x, e) ↦ ground arith
      ]

  -- The service starts with XACK called for every entry with the field `data` that was read. Then
  -- after any number of turns, whatever Redis and the push server answer, no exception has ended the
  -- loop, and XACK has been called for every entry with the field `data` that it has read, once and
  -- in order, also where Redis refuses that call.
  pub consumer_loop-goes_on :
      (rounds : ℕ) (worker_id : String) (env : Env) (t : History)
      → readable notifications_stream t ≡ xack_calls notifications_stream t
      → let (r, t') = consumer_loop c base_url topic rounds worker_id env t in
        (r ≡ ok tt) × (readable notifications_stream t' ≡ xack_calls notifications_stream t')
  unfolding running consumer_loop
  consumer_loop-goes_on zero worker_id env t h = (refl, h)
  consumer_loop-goes_on (suc rounds) worker_id env t h = ground (
    arith,
    consume_one-acks worker_id env t h,
    consumer_loop-goes_on rounds worker_id env (consume_one c base_url topic worker_id env t).1,
  )
