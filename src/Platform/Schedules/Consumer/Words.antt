-- ===== src/Platform/Schedules/Consumer/Words.antt =====
-- What the schedule operations say of an id.
use belgrade_os.Base.{
  String, ◌==◌, ◌≡◌, not, eq_iff, ◌&&◌, ◌||◌, inl, inr, Option, none, some, [], ◌∷◌, if◌then◌else◌,
  is_empty, arith,
}
use belgrade_os.Base.Dict.{lookup, lookup-insert, lookup-erase}
use belgrade_os.Base.Text.{Bytes}
use belgrade_os.Wire
use belgrade_os.Wire.{Json, ScheduleOp, is_obj}
use belgrade_os.World.{Result, Result-cases, ok, raised, Cmd, Message}
use belgrade_os.Prog.{History}
use belgrade_os.Codec.{Codec}
use belgrade_os.Platform.AppId.{is_app_id}
use belgrade_os.Platform.Schedules.{
  ScheduleEntry, Store, Services, entry_of, params_of, upsert_with, apply_op, process_schedule_op,
  store_schedule, drop_schedule, upserted, deleted,
}
use belgrade_os.Platform.Schedules.Sync.{AreUp, add_schedule-lookup, remove_schedule-lookup}
use belgrade_os.Platform.Schedules.Consumer.{process_data}

-- What one operation says of one id: nothing, that there is no schedule, or which one there is.
abbrev pub Word : Type 0
Word = Option (Option ScheduleEntry)

abbrev pub heeded : Word → Option ScheduleEntry → Option ScheduleEntry
heeded none before = before
heeded (some said) before = said

module _ (c : Codec) (services : Services) where
  abbrev valid_word : ScheduleOp → Json → Result (Unit {0}) → Word
  valid_word op params (ok _) = some (some (entry_of services op params))
  valid_word op params (raised x) = none

  abbrev upsert_word : ScheduleOp → Result Json → Word
  upsert_word op (raised x) = none
  upsert_word op (ok params) =
      if is_obj params then valid_word op params (services.from_crontab op.cron) else none

  abbrev kind_word : ScheduleOp → Wire.ScheduleOpType → Word
  kind_word op Wire.ScheduleOpType.upsert =
      if is_empty op.cron || is_empty op.tool_name
      then none
      else upsert_word op (params_of services op)
  kind_word op Wire.ScheduleOpType.delete = some none
  kind_word op _ = none

  -- An operation speaks of its own id alone, under a valid app id.
  abbrev pub word : ScheduleOp → String → Word
  word op id =
      if is_app_id op.app_id && op.schedule_id == id && not (is_empty id)
      then kind_word op op.op
      else none

  abbrev pub parsed_word : Result ScheduleOp → String → Word
  parsed_word (ok op) id = word op id
  parsed_word (raised x) id = none

  abbrev pub data_word : Option Bytes → String → Word
  data_word none id = none
  data_word (some payload) id = parsed_word (c.parse_schedule_op payload) id

  abbrev pub reply_word : Result (Option Message) → String → Word
  reply_word (ok (some m)) id = data_word (lookup "data" m.fields) id
  reply_word _ id = none

  abbrev pub newer : Word → Word → Word
  newer none older = older
  newer (some said) older = some said

  -- The newest word of the entries that were delivered.
  abbrev pub last_word : History → String → Word
  last_word [] id = none
  last_word ((Cmd.xreadgroup s g k, r) ∷ t) id = newer (reply_word r id) (last_word t id)
  last_word (_ ∷ t) id = last_word t id

  -- The table says of every id the newest word, and what it said at first where there is none.
  abbrev pub Follows : Store → History → Store → Type 0
  Follows first t s =
      (id : String) → lookup id s.rows ≡ heeded (last_word t id) (lookup id first.rows)

  module _ (up : AreUp services) where
    upsert_with-lookup :
        (op : ScheduleOp) (params : Result Json) (s : Store) (id : String)
        → lookup id (upsert_with services op params s).1.rows ≡ (
            if op.schedule_id == id
            then heeded (upsert_word op params) (lookup id s.rows)
            else lookup id s.rows)
    unfolding store_schedule
    upsert_with-lookup op (raised x) s id = ground arith
    upsert_with-lookup op (ok params) s id = elim (Result-cases (services.from_crontab op.cron)) [
      | inl (_, valid) ↦
          let entry = entry_of services op params in
          let (done, same, others) =
            add_schedule-lookup services up (entry_of services op params)
              (upserted services (entry_of services op params) s) valid in
          ground (
            arith,
            up.commits,
            same,
            lookup-insert op.schedule_id id (entry_of services op params) s.rows,
          )
      | inr (x, invalid) ↦ ground arith
    ]

    -- What becomes of one id under an operation of this kind, where the app id is valid.
    apply_op-lookup :
        (op : ScheduleOp) (kind : Wire.ScheduleOpType) (s : Store) (id : String)
        → lookup id (apply_op services op kind s).1.rows
          ≡ heeded
              (if op.schedule_id == id && not (is_empty id) then kind_word op kind else none)
              (lookup id s.rows)
    unfolding drop_schedule
    apply_op-lookup op Wire.ScheduleOpType.upsert s id =
        ground (arith, upsert_with-lookup op (params_of services op) s id, eq_iff op.schedule_id id)
    apply_op-lookup op Wire.ScheduleOpType.delete s id =
        let (done, same, others) =
          remove_schedule-lookup services up op.schedule_id (deleted services op.schedule_id s) in
        ground
          (arith, up.commits, same, lookup-erase op.schedule_id id s.rows, eq_iff op.schedule_id id)
    apply_op-lookup op Wire.ScheduleOpType.unspecified s id = ground arith
    apply_op-lookup op (Wire.ScheduleOpType.unknown n) s id = ground arith

    pub process_schedule_op-lookup :
        (op : ScheduleOp) (s : Store) (id : String)
        → lookup id (process_schedule_op services op s).1.rows
          ≡ heeded (word op id) (lookup id s.rows)
    unfolding process_schedule_op
    process_schedule_op-lookup op s id = ground (arith, apply_op-lookup op op.op s id)

    pub process_data-lookup :
        (payload : Bytes) (s : Store) (id : String)
        → lookup id (process_data c services payload s).1.rows
          ≡ heeded (parsed_word (c.parse_schedule_op payload) id) (lookup id s.rows)
    unfolding process_data
    process_data-lookup payload s id = elim (Result-cases (c.parse_schedule_op payload)) [
      | inl (op, e) ↦ ground (arith, e, process_schedule_op-lookup op s id)
      | inr (x, e) ↦ ground (arith, e)
    ]
