-- ===== src/Apps/Tests.antt =====
-- The sample apps at concrete inputs.
use belgrade_os.Base.{String, ◌≡◌, refl, ◌⊎◌, true, false, none, some, [], ◌∷◌}
use belgrade_os.Base.Dict.{lookup, insert, keys}
use belgrade_os.Base.Text.{encode}
use belgrade_os.Wire.{NotificationRequest, str, obj, arr, nil, item, end, member, get_member}
use belgrade_os.World.{Exn, Result, ok, raised, Cmd}
use belgrade_os.Prog.{History}
use belgrade_os.Calls.{running}
use belgrade_os.Codec.{Codec}
use belgrade_os.Delivery.{commands}
use belgrade_os.Access.{Python}
use belgrade_os.Streams.{vault_ops_stream, notifications_stream}
use belgrade_os.Sample.{codec, env}
use belgrade_os.Notification.{handle_entry}
use belgrade_os.Sdk.Context.{Context, need_redis}
use belgrade_os.Sdk.Operations.{
  notify, notification, emit, vault_write, publish_vault_op, priority_named,
}
use belgrade_os.Sdk.App.{App, register_tool, on_event}
use belgrade_os.Sdk.Lifecycle.{
  Defaults, new_app, register, register_all, on_startup, on_startup-offers, health, clients,
  connected, IsStarted,
}
use belgrade_os.Sdk.Notifying.{payload, IsAdded, IsPushed, IsKept, notify-pushes}
use belgrade_os.Apps.{demo, run_full_test, prompt_argument}

abbrev python : Python
python = record {
  is_zero_float = λ _. false;
  same_number = λ _ _. false;
  format = λ v. elim v [ str s ↦ s | _ ↦ "None" ];
}

abbrev upper : String → String
upper s = s

abbrev defaults : Defaults
defaults = record {
  bridge_url = "http://b";
  db_url = none;
  callback_url = "http://c";
  redis_url = "redis://r";
  notification_driver = none;
  mcp_enabled = some "true";
}

abbrev demo_registered : App
demo_registered = register_all codec (demo codec python upper) (new_app defaults "demo_app" none)

abbrev started : Result App × History
started = on_startup codec (ok tt) (ok tt) defaults demo_registered env []

on_startup-offers_example :
    ((x : Exn) × (clients codec (ok tt) (ok tt) (connected codec defaults demo_registered)
        ≡ raised x)
      × (started.0 ≡ raised x)
      × (started.1 ≡ []))
    ⊎ ((clients codec (ok tt) (ok tt) (connected codec defaults demo_registered) ≡ ok tt)
        × IsStarted codec "demo_app" (demo codec python upper) started [])
on_startup-offers_example =
    on_startup-offers codec (ok tt) (ok tt) defaults "demo_app" none (demo codec python upper) env
      []

-- The tool and the topic are there.
health-demo :
    health codec (register_all codec (demo codec python upper) (new_app defaults "demo_app" none))
    ≡ obj (
        member "status" (str "ok") (
          member "app_id" (str "demo_app") (
            member "tools"
              (arr (item (str "demo_app:run_full_test") nil))
              (member "subscriptions" (arr (item (str "demo.test_completed") nil)) end))))
unfolding health register_all register register_tool on_event new_app insert lookup keys
health-demo = refl

abbrev ctx : Context
ctx = record {
  app_id = "shopping";
  user_id = some "u1";
  tenant_id = some "h1";
  trace_id = "r1";
  bridge_url = "http://b";
  has_db = false;
  has_redis = true;
  notification_driver = "ntfy";
}

abbrev added : NotificationRequest
added = notification codec upper ctx "Added milk" "" "NORMAL" [] none

abbrev reader : Codec
reader = record codec { parse_notification = λ _. ok added }

notify-pushes_example :
    (let (r, t') = notify reader upper ctx "Added milk" "" "NORMAL" [] none env [] in
      (r ≡ ok tt) × IsAdded reader upper ctx "Added milk" "" "NORMAL" [] none [] t')
    × (let bytes = payload reader upper ctx "Added milk" "" "NORMAL" [] none in
        let u' = (handle_entry reader "http://ntfy" "home" (some ("1-0", bytes)) env []).1 in
        IsPushed reader upper ctx "Added milk" "" "NORMAL" [] none "http://ntfy" "home" "1-0" [] u'
        ⊎ IsKept reader upper ctx "Added milk" "" "NORMAL" [] none "http://ntfy" "home" "1-0" [] u')
unfolding priority_named
notify-pushes_example =
    notify-pushes reader upper ctx "Added milk" "" "NORMAL" [] none refl env [] "http://ntfy" "home"
      "1-0" env []

-- The demo's tool writes, notifies and emits.
demo_calls :
    commands (run_full_test codec python upper ctx 0 (member "user_prompt" (str "hi") end) env []).1
    ≡ Cmd.http_post "http://b/v1/events/publish" (
        obj (
          member "topic" (str "demo.test_completed") (
            member "payload"
              (obj (member "path" (str "Tests/demo-r1.md") (member "status" (str "success") end)))
              (member "app_id"
                (str "shopping")
                (member "tenant_id" (str "h1") (member "trace_id" (str "r1") end))))))
      ∷ Cmd.xadd notifications_stream (("data", encode "System Test Complete") ∷ [])
      ∷ Cmd.xadd vault_ops_stream (("data", encode "Tests/demo-r1.md") ∷ [])
      ∷ []
unfolding running run_full_test prompt_argument notify emit vault_write publish_vault_op need_redis
    get_member encode
demo_calls = refl
