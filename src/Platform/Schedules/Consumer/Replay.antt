-- ===== src/Platform/Schedules/Consumer/Replay.antt =====
-- The table after the loop is what the operations that were delivered say, the newest first.
use belgrade_os.Base.{
  ℕ, zero, suc, String, ◌≡◌, refl, ap, sym, subst, ◌∙◌, ◌⊎◌, inl, inr, Option, none, some, ◌∷◌,
  arith,
}
use belgrade_os.Base.Dict.{lookup}
use belgrade_os.Base.Text.{Bytes}
use belgrade_os.Wire.{ScheduleOp}
use belgrade_os.World.{Exn, Result, Result-cases, ok, raised, Cmd, Message}
use belgrade_os.Prog.{Env, History}
use belgrade_os.Prog.Runs.{bind_ok}
use belgrade_os.Calls.{running}
use belgrade_os.Codec.{Codec}
use belgrade_os.Streams.{schedule_ops_stream}
use belgrade_os.Platform.Schedules.{ScheduleEntry, Store, Services}
use belgrade_os.Platform.Schedules.Sync.{IsValid, AreUp, process_schedule_op-IsValid}
use belgrade_os.Startup.{join_group, join_group_lem, created}
use belgrade_os.Platform.Schedules.Consumer.{
  serve, consumer_group, process_parsed, process_data, settle, handle_data, handle_message,
  consume_one, consumer_loop,
}
use belgrade_os.Platform.Schedules.Consumer.Words.{
  Word, heeded, last_word, reply_word, data_word, newer, Follows, process_data-lookup,
}

module _ (c : Codec) (services : Services) where
  -- The store after a reply, whatever becomes of the acknowledgement.
  abbrev data_store : Option Bytes → Store → Store
  data_store none s = s
  data_store (some payload) s = (process_data c services payload s).1

  abbrev reply_store : Result (Option Message) → Store → Store
  reply_store (ok (some m)) s = data_store (lookup "data" m.fields) s
  reply_store _ s = s

  abbrev read_call : Cmd
  read_call = Cmd.xreadgroup schedule_ops_stream consumer_group "platform-controller"

  abbrev ack_call : String → Cmd
  ack_call msg_id = Cmd.xack schedule_ops_stream consumer_group msg_id

  -- The words of the history stay what they were.
  abbrev Keeps : History → History → Type 0
  Keeps t t' = (id : String) → last_word c services t' id ≡ last_word c services t id

  settle_lem :
      (msg_id : String) (r : Result (Unit {0})) (s : Store) (env : Env) (t : History)
      → ((settle c services msg_id r s env t).0 ≡ ok s)
        × Keeps t (settle c services msg_id r s env t).1
  unfolding settle running
  settle_lem msg_id (raised x) s env t = (refl, λ id. refl)
  settle_lem msg_id (ok u) s env t = elim (Result-cases (env t (ack_call msg_id))) [
    | inl (_, e) ↦ (ground arith, λ id. ground arith)
    | inr (x, e) ↦ (ground arith, λ id. ground arith)
  ]

  -- The entry is handled, or the acknowledgement of an entry without data raises.
  Handles : Result Store → Store → Store → Type 0
  Handles r s' s = (r ≡ ok s') ⊎ ((x : Exn) × (r ≡ raised x) × (s' ≡ s))

  handle_data_lem :
      (msg_id : String) (payload : Option Bytes) (s : Store) (env : Env) (t : History)
      → let (r, t') = handle_data c services msg_id payload s env t in
        Handles r (data_store payload s) s × Keeps t t'
  unfolding handle_data Handles running
  handle_data_lem msg_id none s env t = elim (Result-cases (env t (ack_call msg_id))) [
    | inl (_, e) ↦ (inl (ground arith), λ id. ground arith)
    | inr (x, e) ↦ (inr (x, ground arith, refl), λ id. ground arith)
  ]
  handle_data_lem msg_id (some payload) s env t =
      let (done, keeps) =
        settle_lem msg_id (process_data c services payload s).0
          (process_data c services payload s).1 env t in
      (inl done, keeps)

  consume_one_lem :
      (s : Store) (env : Env) (t : History)
      → let (r, t') = consume_one c services s env t in
        (r ≡ ok (reply_store (env t read_call) s))
        × ((id : String)
            → last_word c services t' id
              ≡ newer c services
                  (reply_word c services (env t read_call) id)
                  (last_word c services t id))
  unfolding consume_one handle_message Handles running
  consume_one_lem s env t = elim (Result-cases (env t read_call)) [
    | inr (x, e) ↦ (ground arith, λ id. ground arith)
    | inl (none, e) ↦ (ground arith, λ id. ground arith)
    | inl (some m, e) ↦
        let t₁ : History = (read_call, ok (some m)) ∷ t in
        let (done, keeps) = handle_data_lem m.id (lookup "data" m.fields) s env t₁ in
        elim done [
          | inl f ↦ (ground arith, λ id. ground (arith, keeps id))
          | inr (x, f, g) ↦ (ground arith, λ id. ground (arith, keeps id))
        ]
  ]

  -- The loop goes on, in step with what was delivered.
  abbrev pub IsReplay : Store → Result Store × History → Type 0
  IsReplay first (r, t') = (s' : Store) × (r ≡ ok s') × IsValid s' × Follows c services first t' s'

  module _ (up : AreUp services) where
    data_store-lookup :
        (payload : Option Bytes) (s : Store) (id : String)
        → lookup id (data_store payload s).rows
          ≡ heeded (data_word c services payload id) (lookup id s.rows)
    data_store-lookup none s id = refl
    data_store-lookup (some payload) s id = process_data-lookup c services up payload s id

    reply_store-lookup :
        (r : Result (Option Message)) (s : Store) (id : String)
        → lookup id (reply_store r s).rows ≡ heeded (reply_word c services r id) (lookup id s.rows)
    reply_store-lookup (ok none) s id = refl
    reply_store-lookup (ok (some m)) s id = data_store-lookup (lookup "data" m.fields) s id
    reply_store-lookup (raised x) s id = refl

    parsed-IsValid :
        (r : Result ScheduleOp) (s : Store) → IsValid s → IsValid (process_parsed c services r s).1
    parsed-IsValid (ok op) s h = process_schedule_op-IsValid services up op s h
    parsed-IsValid (raised x) s h = h

    data_store-IsValid :
        (payload : Option Bytes) (s : Store) → IsValid s → IsValid (data_store payload s)
    unfolding process_data
    data_store-IsValid none s h = h
    data_store-IsValid (some payload) s h = parsed-IsValid (c.parse_schedule_op payload) s h

    reply_store-IsValid :
        (r : Result (Option Message)) (s : Store) → IsValid s → IsValid (reply_store r s)
    reply_store-IsValid (ok none) s h = h
    reply_store-IsValid (ok (some m)) s h = data_store-IsValid (lookup "data" m.fields) s h
    reply_store-IsValid (raised x) s h = h

    newer-heeded :
        (new old : Word) (before : Option ScheduleEntry)
        → heeded new (heeded old before) ≡ heeded (newer c services new old) before
    newer-heeded none old before = refl
    newer-heeded (some said) old before = refl

    Follows-reply_store :
        (first s : Store) (r : Result (Option Message)) (t t' : History)
        → Follows c services first t s
        → ((id : String)
            → last_word c services t' id
              ≡ newer c services (reply_word c services r id) (last_word c services t id))
        → Follows c services first t' (reply_store r s)
    Follows-reply_store first s r t t' follows said id =
        reply_store-lookup r s id
        ∙ ap (heeded (reply_word c services r id)) (follows id)
        ∙ newer-heeded (reply_word c services r id) (last_word c services t id)
            (lookup id first.rows)
        ∙ ap (λ w. heeded w (lookup id first.rows)) (sym (said id))

    -- The loop alone.
    consumer_loop-Follows :
        (first s : Store) (turns : ℕ) (env : Env) (t : History)
        → IsValid s
        → Follows c services first t s
        → IsReplay first (consumer_loop c services turns s env t)
    unfolding consumer_loop running
    consumer_loop-Follows first s zero env t valid follows = (s, refl, valid, follows)
    consumer_loop-Follows first s (suc turns) env t valid follows =
        let s₁ = reply_store (env t read_call) s in
        let t₁ = (consume_one c services s env t).1 in
        let (done, said) = consume_one_lem s env t in
        let step : consume_one c services s env t
            ≡ (ok (reply_store (env t read_call) s), (consume_one c services s env t).1) =
          ground (arith, done) in
        subst (IsReplay first)
          (sym (
            bind_ok (consume_one c services s) (λ u. consumer_loop c services turns u) env t _ _
              step))
          (consumer_loop-Follows first (reply_store (env t read_call) s) turns env
            (consume_one c services s env t).1 (reply_store-IsValid (env t read_call) s valid)
            (Follows-reply_store first s (env t read_call) t (consume_one c services s env t).1
              follows said))

    -- The loop of the schedule operations refines the replay of what it was delivered. While
    -- PostgreSQL and the scheduler library answer every call, and whatever Redis answers, from a
    -- well-formed table in step with its jobs and with what was delivered so far: the
    -- service goes on without its group where that cannot be created, and after any number of turns
    -- the loop goes on, the jobs are those of the table, and the table says of every id what the
    -- newest delivered operation on that id says that is accepted, the entry of an upsert whose cron
    -- is valid or nothing after a deletion; and where there is none, what it said at first.
    pub serve-Follows :
        (first s : Store) (turns : ℕ) (env : Env) (t : History)
        → IsValid s
        → Follows c services first t s
        → IsReplay first (serve c services turns s env t)
    unfolding serve
    serve-Follows first s turns env t valid follows =
        subst (IsReplay first)
          (sym (
            bind_ok (join_group schedule_ops_stream consumer_group)
              (λ _. consumer_loop c services turns s) env t _ _
              (join_group_lem schedule_ops_stream consumer_group env t)))
          (consumer_loop-Follows first s turns env
            (created schedule_ops_stream consumer_group env t) valid follows)
