-- ===== src/Notification.antt =====
-- services/notification: a request is sent by the ntfy driver, or else moved to the failed stream.
pub mod Ntfy
pub mod Outcomes
pub mod Acks
pub mod Main
mod Tests
unfoldable pub use Ntfy.{send}
use belgrade_os.Base.{
  ℕ, zero, suc, String, ◌<>◌, Bool, true, false, Option, none, some, List, [], ◌∷◌, if◌then◌else◌,
}
use belgrade_os.Base.Dict.{lookup}
use belgrade_os.Base.Text.{Bytes, encode}
use belgrade_os.Wire.{NotificationRequest}
use belgrade_os.World.{Exn, Fault, connection_error, redis_timeout_error, value_error, Message, Cmd}
use belgrade_os.Prog.{Prog, pure, raise, lift, ask, try_except, try_finally, ◌>>=◌, ◌>>◌}
use belgrade_os.Calls.{xreadgroup, xack, xadd}
use belgrade_os.Codec.{Codec}
use belgrade_os.Streams.{notifications_stream}

abbrev pub consumer_group : String
consumer_group = "notification-workers"

-- RedisClient.read_notification
unfoldable pub payload_of : Option Message → Prog (Option (String × Bytes))
unfolding lookup
payload_of none = pure none
payload_of (some m) = elim (lookup "data" m.fields) [
  | none ↦ raise (record { fault = value_error; text = "Stream message missing 'data' field" })
  | some payload ↦ pure (some (m.id, payload))
]

unfoldable pub read_notification : String → Prog (Option (String × Bytes))
read_notification consumer_id = do
  found ← xreadgroup notifications_stream consumer_group consumer_id
  payload_of found

abbrev pub failed_fields : String → Bytes → List (String × Bytes)
failed_fields message_id payload = ("data", payload) ∷ ("original_id", encode message_id) ∷ []

abbrev pub failed_stream : String
failed_stream = "tasks:notifications:failed"

unfoldable pub move_to_failed : String → Bytes → Prog Unit
move_to_failed message_id payload = xadd failed_stream (failed_fields message_id payload)

abbrev move_unless : Bool → String → Bytes → Prog Unit
move_unless true message_id payload = pure tt
move_unless false message_id payload = move_to_failed message_id payload

-- `except (ConnectionError, TimeoutError)` of Redis, or else `except Exception`
abbrev backoff : Fault → ℕ
backoff connection_error = 5
backoff redis_timeout_error = 5
backoff _ = 10

module _ (c : Codec) (base_url topic : String) where
  -- worker.py
  unfoldable pub process_notification : NotificationRequest → Prog Bool
  process_notification req = try_except (do send base_url topic req; pure true) (λ exc. pure false)

  unfoldable pub attempt : String → Bytes → Prog Unit
  attempt msg_id payload = do
    req ← lift (c.parse_notification payload)
    success ← process_notification req
    move_unless success msg_id payload

  unfoldable pub handle_entry : Option (String × Bytes) → Prog Unit
  handle_entry none = pure tt
  handle_entry (some (msg_id, payload)) =
      try_finally (try_except (attempt msg_id payload) (λ exc. move_to_failed msg_id payload))
        (xack notifications_stream consumer_group msg_id)

  -- one turn of `_consumer_loop`
  unfoldable pub consume_one : String → Prog Unit
  consume_one worker_id =
      try_except (do found ← read_notification worker_id; handle_entry found)
        (λ exc. ask (Cmd.sleep (backoff exc.fault)))

  unfoldable pub consumer_loop : ℕ → String → Prog Unit
  consumer_loop zero worker_id = pure tt
  consumer_loop (suc rounds) worker_id = do consume_one worker_id; consumer_loop rounds worker_id
