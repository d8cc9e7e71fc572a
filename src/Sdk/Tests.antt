-- ===== src/Sdk/Tests.antt =====
-- The SDK at concrete inputs.
use belgrade_os.Base.{
  ℕ, ◌≡◌, ◌≢◌, ◌⊎◌, refl, sym, subst, map, Option, List, ◌+◌, true, false, none, some, [], ◌∷◌,
  String, ◌==◌, arith, nat_eq, ◌-◌, if◌then◌else◌,
}
use belgrade_os.Base.Dict.{lookup}
use belgrade_os.Wire.{Task, obj, end}
use belgrade_os.World.{Exn, Result, ok, raised, Cmd, Reply}
use belgrade_os.Prog.{pure, Env, History, ◌>>◌}
use belgrade_os.Prog.Emits.{Emits, Extends}
use belgrade_os.Calls.{db_session}
use belgrade_os.Sample.{codec, env, task}
use belgrade_os.Sample.Packed.{packed, packed-tasks, packed-thoughts, packed-ops}
use belgrade_os.Streams.{inbound_stream, schedule_ops_stream}
use belgrade_os.Inference.{process_task, handle_task}
use belgrade_os.Inference.Trust.{Confined}
use belgrade_os.Inference.Publishing.{events_of, published, Says, process_task-publishes}
use belgrade_os.Platform.AppId.{is_app_id, match_app_id, match_id}
use belgrade_os.Platform.Schedules.{Store, Services}
use belgrade_os.Platform.Schedules.Sync.{AreUp}
use belgrade_os.Platform.Schedules.Consumer.{process_data}
use belgrade_os.Sdk.Context.{Context, or_empty}
use belgrade_os.Sdk.Operations.{request, schedule, unschedule, schedule_id}
use belgrade_os.Sdk.Reading.{text, stream, channel, await_result}
use belgrade_os.Sdk.App.{App, ExecuteRequest, Tool}
use belgrade_os.Sdk.Terminal.{Quiet, IsClosed, stream-closes}
use belgrade_os.Sdk.Waiting.{PassesWithin, stream-ends}
use belgrade_os.Sdk.Hearing.{Hears, heard, hears, Serves, subscribed, await_result-process_task}
use belgrade_os.Sdk.Requests.{request-Confined}
use belgrade_os.Sdk.Scheduling.{ReadsOps, entry, upsert_bytes, delete_bytes, schedule-unschedule}

abbrev upper : String → String
upper s = s

abbrev ctx : Context
ctx = record {
  app_id = "shopping";
  user_id = some "u1";
  tenant_id = some "h1";
  trace_id = "r1";
  bridge_url = "http://b";
  has_db = true;
  has_redis = true;
  notification_driver = "ntfy";
}

-- The first message on the channel is the last event.
abbrev reply_with : Result (Option (List ℕ)) → (c : Cmd) → Reply c
reply_with message Cmd.get_message = message
reply_with message Cmd.monotonic_ns = 5000000
reply_with message cmd = env [] cmd

abbrev telling : Env
telling t cmd = reply_with (ok (some [])) cmd

stream-closes_example :
    let asked = env [] (Cmd.subscribe (channel "t1")) in
    let t' = (stream codec 3 ctx "t1" 10 env []).1 in
    ((ctx.has_redis ≡ false) × (t' ≡ []))
    ⊎ ((x : Exn) × (ctx.has_redis ≡ true)
        × (asked ≡ raised x)
        × (t' ≡ (Cmd.subscribe (channel "t1"), raised x) ∷ []))
    ⊎ ((between : History) × (ctx.has_redis ≡ true)
        × Extends Quiet ((Cmd.subscribe (channel "t1"), ok tt) ∷ []) between
        × IsClosed "t1" between t')
stream-closes_example = stream-closes codec 3 ctx "t1" 10 env []

-- Without any time to wait the clock has passed the timeout at once.
passes : PassesWithin 1 0 env ((Cmd.subscribe (channel "t1"), ok tt) ∷ [])
passes t quiet le = refl

stream-ends_example : (stream codec 2 ctx "t1" 0 env []).0 ≢ ok none
stream-ends_example = stream-ends codec 1 0 ctx "t1" env [] passes 2 (omega arith) (omega arith)

request-Confined_example :
    let (r, t') = request packed upper ctx "hi" env [] in
    ((x : Exn) × (r ≡ raised x))
    ⊎ ((asked : Task) × (before : History) × (r ≡ ok (asked.task_id, asked.trace_id))
        × (asked.app_id ≡ ctx.app_id)
        × (asked.user_id ≡ or_empty ctx.user_id)
        × (t'
            ≡ (Cmd.xadd_maxlen inbound_stream (("data", packed.task_bytes asked) ∷ []) 1000, ok tt)
              ∷ before)
        × Emits
            (Confined packed asked)
            (handle_task packed "http://b" "i1" 3 (some ("1-0", packed.task_bytes asked))))
request-Confined_example =
    request-Confined packed packed-tasks upper ctx refl "hi" env [] "http://b" "i1" 3 "1-0"

-- A tool that opens a session.
abbrev opening : Tool
opening context before arguments = db_session >> pure (obj end)

abbrev app : App
app = record {
  app_id = "shopping";
  tools = ("shopping:list", opening) ∷ [];
  tool_definitions = [];
  event_handlers = [];
  bridge_url = "http://b";
  callback_url = "http://a";
  mcp_enabled = false;
  has_db = true;
  has_redis = true;
  notification_driver = "ntfy";
}

abbrev req : ExecuteRequest
req = record {
  tool_name = "shopping:list";
  input_json = "{}";
  trace_id = "r1";
  user_id = none;
  tenant_id = none;
}

-- The sample's outside lets the model say "hello" and takes what is published.
says : Says task ("hello" ∷ []) env
says = record { takes = λ _ _ _. refl; goes_on = λ _. refl; answers = λ _ _ _. refl }

abbrev payloads : List (List ℕ)
payloads = map packed.thought_bytes (events_of task ("hello" ∷ []))

-- How many messages were read, and the message that comes next.
abbrev gets : History → ℕ
gets [] = 0
gets ((Cmd.get_message, _) ∷ t) = gets t + 1
gets (_ ∷ t) = gets t

abbrev nth : List (List ℕ) → ℕ → Option (List ℕ)
nth [] n = none
nth (p ∷ ps) n = if nat_eq n 0 then some p else nth ps (n - 1)

abbrev reader : Env
reader t cmd = reply_with (ok (nth payloads (gets t))) cmd

abbrev start : History
start = (Cmd.monotonic_ns, 5000000) ∷ subscribed "t1" []

both : Hears reader 5000010 2 payloads start
both = hears 5000000 _ refl refl refl (hears 5000000 _ refl refl refl heard)

all_published :
    Hears reader 5000010 2
      (published (channel "t1") (process_task packed "http://b" "i1" 1 task env []).1)
      start
all_published =
    subst (λ ps. Hears reader 5000010 2 ps start)
      (sym (process_task-publishes packed "http://b" "i1" task ("hello" ∷ []) env says 0 []).1) both

serves : Serves ctx "t1" reader []
serves = record { has = refl; subscribes = refl; leaves = λ _. refl; closes = λ _. refl }

await_result-process_task_example :
    (await_result packed 2 ctx "t1" "text" 10 reader []).0 ≡ ok (some (text "hello"))
await_result-process_task_example =
    await_result-process_task packed packed-thoughts task ("hello" ∷ []) ctx reader [] serves env
      "http://b" "i1" 0 says 2 10 5000000 refl all_published

abbrev services : Services
services = record {
  commit = ok tt;
  from_crontab = λ _. ok tt;
  add_job = λ _. ok tt;
  remove_job = λ _. ok tt;
  loads = λ _. ok (obj end);
}

up : AreUp services
up = record { commits = refl; adds = λ _. refl; removes = λ _. refl }

reads_ops : ReadsOps packed services none
reads_ops = record { reads = packed-ops; loads_dumps = refl; dumps_some = refl }

abbrev empty : Store
empty = record { rows = []; active_jobs = [] }

shopping-IsAppId : is_app_id ctx.app_id ≡ true
unfolding is_app_id match_app_id match_id
shopping-IsAppId = refl

schedule-unschedule_example :
    let id = schedule_id packed upper ctx "daily" in
    let made = some (entry packed upper ctx "daily" "0 9 * * *" "shopping:sum" none) in
    let b₁ = upsert_bytes packed upper ctx "daily" "0 9 * * *" "shopping:sum" none in
    let b₂ = delete_bytes packed upper ctx "daily" in
    let add = Cmd.xadd schedule_ops_stream (("data", b₁) ∷ []) in
    let take = Cmd.xadd schedule_ops_stream (("data", b₂) ∷ []) in
    let s₁ = (process_data packed services b₁ empty).1 in
    let s₂ = (process_data packed services b₂ s₁).1 in
    ((schedule packed upper ctx "daily" "0 9 * * *" "shopping:sum" none env []).1
      ≡ (add, env [] add) ∷ [])
    × ((unschedule packed upper ctx "daily" env []).1 ≡ (take, env [] take) ∷ [])
    × (lookup id s₁.rows ≡ made)
    × (lookup id s₁.active_jobs ≡ made)
    × ((any : String)
        → (lookup any s₂.rows ≡ (if id == any then none else lookup any []))
          × (lookup any s₂.active_jobs ≡ (if id == any then none else lookup any [])))
schedule-unschedule_example =
    schedule-unschedule packed upper ctx services none reads_ops up shopping-IsAppId "daily"
      "0 9 * * *" "shopping:sum" empty env [] refl refl refl refl refl (tt, λ id. refl)
