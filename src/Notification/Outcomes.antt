-- ===== src/Notification/Outcomes.antt =====
-- What becomes of a notification.
use belgrade_os.Base.{String, ◌≡◌, ◌⊎◌, inl, inr, ap, sym, subst, some, ◌∷◌, arith}
use belgrade_os.Base.Text.{Bytes}
use belgrade_os.Wire.{NotificationRequest}
use belgrade_os.World.{Exn, Cmd, Result, Result-cases, ok, raised}
use belgrade_os.Prog.{Prog, try_except, Env, History}
use belgrade_os.Codec.{Codec}
use belgrade_os.Calls.{running}
use belgrade_os.Streams.{notifications_stream}
use belgrade_os.Notification.Ntfy.{send_url, headers_of}
use belgrade_os.Notification.{
  send, process_notification, attempt, handle_entry, move_to_failed, consumer_group, failed_stream,
  failed_fields,
}

module _ (c : Codec) (base_url topic id : String) (payload : Bytes) where
  abbrev pub notify_call : NotificationRequest → Cmd
  notify_call req = Cmd.http_notify (send_url base_url topic) (headers_of req) req.body

  abbrev pub move_call : Cmd
  move_call = Cmd.xadd failed_stream (failed_fields id payload)

  abbrev pub ack_call : Cmd
  ack_call = Cmd.xack notifications_stream consumer_group id

  -- The push server took it.
  abbrev pub IsSent : History → History → Type 0
  IsSent t t' =
      (req : NotificationRequest) × (a : Result (Unit {0})) × (c.parse_notification payload
        ≡ ok req)
      × (t' ≡ (ack_call, a) ∷ (notify_call req, ok tt) ∷ t)

  -- The last call before that of XACK was to move it to the failed stream.
  abbrev pub IsMoved : Result (Unit {0}) → History → Type 0
  IsMoved r t' =
      (before : History) × (a : Result (Unit {0})) × (t' ≡ (ack_call, a) ∷ (move_call, r) ∷ before)

  -- What the guarded attempt leaves.
  Attempted : History → History → Type 0
  Attempted t u =
      ((req : NotificationRequest) × (c.parse_notification payload ≡ ok req)
        × (u ≡ (notify_call req, ok tt) ∷ t))
      ⊎ ((before : History) × (r : Result (Unit {0})) × (u ≡ (move_call, r) ∷ before))

  guarded : Prog Unit
  guarded = try_except (attempt c base_url topic id payload) (λ exc. move_to_failed id payload)

  guarded-Attempted : (env : Env) (t : History) → Attempted t (guarded env t).1
  unfolding running guarded attempt process_notification send move_to_failed Attempted
  guarded-Attempted env t = elim (Result-cases (c.parse_notification payload)) [
    | inr (x, e) ↦ inr (t, env t move_call, ground arith)
    | inl (req, e) ↦ elim (Result-cases (env t (notify_call req))) [
      | inl (_, sent) ↦ inl (req, e, ground arith)
      | inr (x, fails) ↦
          let u : History = (notify_call req, raised x) ∷ t in
          elim (Result-cases (env u move_call)) [
            | inl (_, moved) ↦ inr (u, ok tt, ground arith)
            | inr (y, refused) ↦
                let v : History = (move_call, raised y) ∷ u in
                inr (v, env v move_call, ground arith)
          ]
    ]
  ]

  acknowledged_after :
      (env : Env) (t : History)
      → let u = (guarded env t).1 in
        (handle_entry c base_url topic (some (id, payload)) env t).1
        ≡ (ack_call, env u ack_call) ∷ u
  unfolding running handle_entry guarded
  acknowledged_after env t = ground arith

  kept :
      (t u : History) (a : Result (Unit {0}))
      → Attempted t u
      → let t' : History = (ack_call, a) ∷ u in
        IsSent t t' ⊎ IsMoved (ok tt) t' ⊎ ((x : Exn) × IsMoved (raised x) t')
  unfolding Attempted
  kept t u a (inl (req, e, same)) = inl (req, a, e, ap (λ l. (ack_call, a) ∷ l) same)
  kept t u a (inr (before, ok _, same)) = inr (inl (before, a, ap (λ l. (ack_call, a) ∷ l) same))
  kept t u a (inr (before, raised x, same)) =
      inr (inr (x, (before, a, ap (λ l. (ack_call, a) ∷ l) same)))

  -- An entry is sent, or it is moved to the failed stream, or else Redis refused to take it there.
  -- XACK is called for it in each case.
  pub handle_entry-keeps :
      (env : Env) (t : History)
      → let t' = (handle_entry c base_url topic (some (id, payload)) env t).1 in
        IsSent t t' ⊎ IsMoved (ok tt) t' ⊎ ((x : Exn) × IsMoved (raised x) t')
  handle_entry-keeps env t =
      let u = (guarded env t).1 in
      subst (λ t'. IsSent t t' ⊎ IsMoved (ok tt) t' ⊎ ((x : Exn) × IsMoved (raised x) t'))
        (sym (acknowledged_after env t)) (kept t u (env u ack_call) (guarded-Attempted env t))
