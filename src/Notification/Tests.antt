-- ===== src/Notification/Tests.antt =====
-- The notification service at concrete inputs.
use belgrade_os.Base.{◌≡◌, refl, [], ◌∷◌}
use belgrade_os.World.{Result, ok, Cmd}
use belgrade_os.Calls.{running}
use belgrade_os.Prog.{History}
use belgrade_os.Delivery.{commands, readable, xack_calls}
use belgrade_os.Streams.{notifications_stream}
use belgrade_os.Sample.{codec, env}
use belgrade_os.Notification.{
  send, process_notification, attempt, handle_entry, move_to_failed, payload_of, read_notification,
  consume_one, consumer_loop,
}
use belgrade_os.Notification.Ntfy.{rstrip_slash, join}
use belgrade_os.Notification.Acks.{consumer_loop-goes_on}

abbrev run : Result {0} Unit × History
run = consumer_loop codec "http://ntfy//" "home" 1 "w" env []

-- One entry is read, sent with its headers and acknowledged.
run_calls :
    commands run.1
    ≡ Cmd.xack "tasks:notifications" "notification-workers" "1-0"
      ∷ Cmd.http_notify "http://ntfy/home"
          (("Title", "Added") ∷ ("Priority", "5") ∷ ("Tags", "cart") ∷ [])
          "milk"
      ∷ Cmd.xreadgroup "tasks:notifications" "notification-workers" "w"
      ∷ []
unfolding running rstrip_slash join send process_notification attempt handle_entry move_to_failed
    payload_of read_notification consume_one consumer_loop
run_calls = refl

consumer_loop-goes_on_example :
    (run.0 ≡ ok tt) × (readable notifications_stream run.1 ≡ xack_calls notifications_stream run.1)
consumer_loop-goes_on_example = consumer_loop-goes_on codec "http://ntfy//" "home" 1 "w" env [] refl
