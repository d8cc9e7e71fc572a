-- ===== src/Sdk/Scheduling.antt =====
-- What becomes of a schedule that an app makes and takes back: the controller's side of
-- `AppContext.schedule` and `unschedule`.
use text.Mathlib.TextLemmas.{append-eq-nil_iff}
use belgrade_os.Base.{
  String, ◌<>◌, ◌==◌, ◌≡◌, refl, sym, subst, eq_iff, eq_refl, true, false, Option, none, some, [],
  ◌∷◌, is_empty, if◌then◌else◌, arith,
}
use belgrade_os.Base.Dict.{lookup}
use belgrade_os.Base.Text.{Bytes}
use belgrade_os.Wire
use belgrade_os.Wire.{Json, ScheduleOp, is_obj}
use belgrade_os.World.{ok, Cmd}
use belgrade_os.Prog.{Env, History}
use belgrade_os.Calls.{running}
use belgrade_os.Codec.{Codec}
use belgrade_os.Streams.{schedule_ops_stream}
use belgrade_os.Platform.AppId.{is_app_id}
use belgrade_os.Platform.Schedules.{ScheduleEntry, Store, Services}
use belgrade_os.Platform.Schedules.Sync.{IsValid, AreUp, process_schedule_op-IsValid}
use belgrade_os.Platform.Schedules.Consumer.{process_parsed, process_data}
use belgrade_os.Platform.Schedules.Consumer.Words.{process_schedule_op-lookup}
use belgrade_os.Sdk.Context.{Context, or_empty, need_redis}
use belgrade_os.Sdk.Operations.{
  schedule_id, upsert_op, delete_op, publish_schedule_op, schedule, unschedule,
}

-- `params or {}`
abbrev pub given : Option Json → Json
given none = Wire.obj Wire.end
given (some params) = params

-- Parsing gives back what was serialised, also the JSON of these parameters, whose text is not empty.
pub record ReadsOps (c : Codec) (services : Services) (params : Option Json) : Type 0 where
  pub reads : (op : ScheduleOp) → c.parse_schedule_op (c.schedule_op_bytes op) ≡ ok op
  pub loads_dumps : services.loads (c.dumps (given params)) ≡ ok (given params)
  pub dumps_some : is_empty (c.dumps (given params)) ≡ false

is_empty-append : (s t : String) → is_empty s ≡ false → is_empty (s <> t) ≡ false
is_empty-append s t h =
    ground (arith, eq_iff s "", eq_iff (s <> t) "", append-eq-nil_iff {p = s} {q = t})

append-is_empty : (s t : String) → is_empty t ≡ false → is_empty (s <> t) ≡ false
append-is_empty s t h =
    ground (arith, eq_iff t "", eq_iff (s <> t) "", append-eq-nil_iff {p = s} {q = t})

module _ (c : Codec) (upper : String → String) (ctx : Context) where
  abbrev pub entry : String → String → String → Option Json → ScheduleEntry
  entry name cron tool_name params = record {
    id = schedule_id c upper ctx name;
    app_id = ctx.app_id;
    user_id = or_empty ctx.user_id;
    tenant_id = or_empty ctx.tenant_id;
    cron = cron;
    tool_name = tool_name;
    params = given params;
  }

  schedule_id-some : (name : String) → is_empty (schedule_id c upper ctx name) ≡ false
  schedule_id-some name =
      append-is_empty ctx.app_id _ (is_empty-append ":" (or_empty ctx.user_id <> ":" <> name) refl)

  abbrev pub upsert_bytes : String → String → String → Option Json → Bytes
  upsert_bytes name cron tool_name params =
      c.schedule_op_bytes (upsert_op c upper ctx name cron tool_name params)

  abbrev pub delete_bytes : String → Bytes
  delete_bytes name = c.schedule_op_bytes (delete_op c upper ctx name)

  -- what the app adds to the stream
  published :
      (op : ScheduleOp) (env : Env) (t : History)
      → ctx.has_redis ≡ true
      → let add = Cmd.xadd schedule_ops_stream (("data", c.schedule_op_bytes op) ∷ []) in
        (publish_schedule_op c upper ctx op env t).1 ≡ (add, env t add) ∷ t
  unfolding publish_schedule_op need_redis running
  published op env t has = ground arith

  module _ (services : Services) (params : Option Json) (reads : ReadsOps c services params)
      (up : AreUp services) (valid_id : is_app_id ctx.app_id ≡ true) where
    -- `params_json` is the text of the given parameters.
    op-params :
        (name cron tool_name : String) (params' : Option Json)
        → (upsert_op c upper ctx name cron tool_name params').params_json ≡ c.dumps (given params')
    op-params name cron tool_name none = refl
    op-params name cron tool_name (some j) = refl

    stored :
        (name cron tool_name : String) (s : Store)
        → is_empty cron ≡ false
        → services.from_crontab cron ≡ ok tt
        → is_empty tool_name ≡ false
        → is_obj (given params) ≡ true
        → (id : String)
        → lookup id (process_data c services (upsert_bytes name cron tool_name params) s).1.rows ≡ (
            if schedule_id c upper ctx name == id
            then some (entry name cron tool_name params)
            else lookup id s.rows)
    unfolding process_data
    stored name cron tool_name s a b d e id =
        let op = upsert_op c upper ctx name cron tool_name params in
        ground (
          arith,
          reads.reads op,
          reads.loads_dumps,
          reads.dumps_some,
          op-params name cron tool_name params,
          process_schedule_op-lookup c services up op s id,
          schedule_id-some name,
          eq_iff (schedule_id c upper ctx name) id,
        )

    unscheduled :
        (name : String) (s : Store) (id : String)
        → lookup id (process_data c services (delete_bytes name) s).1.rows
          ≡ (if schedule_id c upper ctx name == id then none else lookup id s.rows)
    unfolding process_data
    unscheduled name s id =
        let op = delete_op c upper ctx name in
        ground (
          arith,
          reads.reads op,
          process_schedule_op-lookup c services up op s id,
          schedule_id-some name,
          eq_iff (schedule_id c upper ctx name) id,
        )

    process_data-IsValid :
        (op : ScheduleOp) (s : Store)
        → IsValid s
        → IsValid (process_data c services (c.schedule_op_bytes op) s).1
    unfolding process_data
    process_data-IsValid op s valid =
        subst (λ r. IsValid (process_parsed c services r s).1) (sym (reads.reads op))
          (process_schedule_op-IsValid services up op s valid)

    -- A schedule and its end. If parsing gives back what was serialised, PostgreSQL and the scheduler
    -- library answer, the context has Redis, the app's id is valid, the parameters are an object, and
    -- the table is well formed and in step with the jobs: what `schedule` adds to the stream, for a
    -- cron that is not empty and that the library parses and a tool with a name, leaves exactly that entry under the id of the schedule, in the table
    -- and as a job; what `unschedule` adds under the same name then takes the row and the job away;
    -- and after both every other id has the row and the job that it had.
    pub schedule-unschedule :
        (name cron tool_name : String) (s : Store) (env : Env) (t : History)
        → ctx.has_redis ≡ true
        → is_empty cron ≡ false
        → services.from_crontab cron ≡ ok tt
        → is_empty tool_name ≡ false
        → is_obj (given params) ≡ true
        → IsValid s
        → let id = schedule_id c upper ctx name in
          let made = some (entry name cron tool_name params) in
          let add =
            Cmd.xadd schedule_ops_stream (("data", upsert_bytes name cron tool_name params) ∷ []) in
          let take = Cmd.xadd schedule_ops_stream (("data", delete_bytes name) ∷ []) in
          let s₁ = (process_data c services (upsert_bytes name cron tool_name params) s).1 in
          let s₂ = (process_data c services (delete_bytes name) s₁).1 in
          ((schedule c upper ctx name cron tool_name params env t).1 ≡ (add, env t add) ∷ t)
          × ((unschedule c upper ctx name env t).1 ≡ (take, env t take) ∷ t)
          × (lookup id s₁.rows ≡ made)
          × (lookup id s₁.active_jobs ≡ made)
          × ((any : String)
              → (lookup any s₂.rows ≡ (if id == any then none else lookup any s.rows))
                × (lookup any s₂.active_jobs
                    ≡ (if id == any then none else lookup any s.active_jobs)))
    unfolding schedule unschedule
    schedule-unschedule name cron tool_name s env t has a b d e valid =
        let id = schedule_id c upper ctx name in
        let op = upsert_op c upper ctx name cron tool_name params in
        let s₁ = (process_data c services (upsert_bytes name cron tool_name params) s).1 in
        let s₂ = (process_data c services (delete_bytes name) s₁).1 in
        let valid₁ =
          process_data-IsValid (upsert_op c upper ctx name cron tool_name params) s valid in
        let valid₂ =
          process_data-IsValid (delete_op c upper ctx name)
            (process_data c services (upsert_bytes name cron tool_name params) s).1 valid₁ in
        let row = stored name cron tool_name s a b d e in
        let gone =
          unscheduled name
            (process_data c services (upsert_bytes name cron tool_name params) s).1 in
        let self = eq_refl (schedule_id c upper ctx name) in
        (
          published op env t has,
          published (delete_op c upper ctx name) env t has,
          ground (arith, self, row id),
          ground (arith, self, row id, valid₁.1 id),
          λ any. (
            ground (arith, gone any, row any),
            ground (arith, gone any, row any, valid₂.1 any, valid.1 any),
          ),
        )
