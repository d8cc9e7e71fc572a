-- ===== src/Sdk/Notifying.antt =====
-- What becomes of a notification of an app in the notification service.
use belgrade_os.Base.{
  String, ◌≡◌, ◌⊎◌, inl, inr, Bool-cases, true, false, Option, some, List, [], ◌∷◌, ◌==◌, ◌++◌,
  if◌then◌else◌, is_empty, arith,
}
use belgrade_os.Base.Dict.{Dict}
use belgrade_os.Base.Text.{Bytes}
use belgrade_os.World.{Exn, Result, Result-cases, ok, raised, Cmd}
use belgrade_os.Prog.{Env, History}
use belgrade_os.Calls.{running}
use belgrade_os.Codec.{Codec}
use belgrade_os.Streams.{notifications_stream}
use belgrade_os.Notification.{send, process_notification, attempt, handle_entry, move_to_failed}
use belgrade_os.Notification.Ntfy.{send_url, join, headers_of}
use belgrade_os.Notification.Outcomes.{ack_call, move_call}
use belgrade_os.Sdk.Context.{Context, or_empty, need_redis}
use belgrade_os.Sdk.Operations.{notify, notification, priority_named}

-- The number of the push server for a word.
abbrev pub shown_priority : String → String
shown_priority word = if word == "LOW" then "2" else if word == "HIGH" then "5" else "3"

abbrev tags_header : List String → Dict String
tags_header [] = []
tags_header (tag ∷ tags) = ("Tags", join (tag ∷ tags)) ∷ []

abbrev click_header : String → Dict String
click_header url = if is_empty url then [] else ("Click", url) ∷ []

-- The headers for what an app gave to `notify`.
abbrev pub shown : (String → String) → String → String → List String → Option String → Dict String
shown upper title priority tags click_url =
    ("Title", title) ∷ ("Priority", shown_priority (upper priority)) ∷ tags_header tags
    ++ click_header (or_empty click_url)

module _ (c : Codec) (upper : String → String) (ctx : Context) (title body priority : String)
    (tags : List String) (click_url : Option String) where
  abbrev pub payload : Bytes
  payload = c.notification_bytes (notification c upper ctx title body priority tags click_url)

  abbrev pub push_call : String → String → Cmd
  push_call base_url topic =
      Cmd.http_notify (send_url base_url topic) (shown upper title priority tags click_url) body

  headers_lem :
      headers_of (notification c upper ctx title body priority tags click_url)
      ≡ shown upper title priority tags click_url
  unfolding priority_named
  headers_lem = elim tags [ [] ↦ ground arith | tag ∷ rest ↦ ground arith ]

  -- The entry is added, or there is no Redis.
  abbrev pub IsAdded : History → History → Type 0
  IsAdded t t' =
      ((ctx.has_redis ≡ false) × (t' ≡ t))
      ⊎ ((ctx.has_redis ≡ true)
          × (a : Result (Unit {0})) × (t'
              ≡ (Cmd.xadd notifications_stream (("data", payload) ∷ []), a) ∷ t))

  notify-IsAdded :
      (env : Env) (t : History)
      → let (r, t') = notify c upper ctx title body priority tags click_url env t in
        (r ≡ ok tt) × IsAdded t t'
  unfolding notify need_redis running
  notify-IsAdded env t = elim (Bool-cases (ctx.has_redis)) [
    | inr e ↦ (ground (arith, e), inl (e, ground (arith, e)))
    | inl e ↦
        let add = Cmd.xadd notifications_stream (("data", payload) ∷ []) in
        elim (Result-cases (env t (Cmd.xadd notifications_stream (("data", payload) ∷ [])))) [
          | inl (_, f) ↦ (ground (arith, e, f), inr (e, ok tt, ground (arith, e, f)))
          | inr (x, f) ↦ (ground (arith, e, f), inr (e, raised x, ground (arith, e, f)))
        ]
  ]

  -- The push server took it, and XACK is called.
  abbrev pub IsPushed : String → String → String → History → History → Type 0
  IsPushed base_url topic id u u' =
      (a : Result (Unit {0})) × (u'
        ≡ (ack_call c base_url topic id payload, a) ∷ (push_call base_url topic, ok tt) ∷ u)

  -- The push server refused it, and it was moved to the failed stream, perhaps a second time where
  -- Redis refused that, and XACK is called.
  abbrev pub IsKept : String → String → String → History → History → Type 0
  IsKept base_url topic id u u' =
      (x : Exn) × (a : Result (Unit {0})) × (let move = move_call c base_url topic id payload in
        let ack = ack_call c base_url topic id payload in
        let pushed : History = (push_call base_url topic, raised x) ∷ u in
        (u' ≡ (ack, a) ∷ (move, ok tt) ∷ pushed)
        ⊎ ((y : Exn) × (b : Result (Unit {0})) × (u'
              ≡ (ack, a) ∷ (move, b) ∷ (move, raised y) ∷ pushed)))

  -- An app notifies: if it has Redis, it makes one call, which adds an entry to the stream, and else
  -- none, and in no case does it fail. The notification service that reads such an entry, at any
  -- time and whatever is answered, makes one push, which shows the app's title, body, tags and link
  -- and the number of the priority that the app named. If the push server takes it, the
  -- call of XACK is the only other one; else the entry is moved to the failed stream, which is
  -- tried again once where Redis refuses it, and then XACK is called. Parsing is to give back
  -- what was serialised.
  pub notify-pushes :
      c.parse_notification payload
        ≡ ok (notification c upper ctx title body priority tags click_url)
      → (env : Env) (t : History) (base_url topic id : String) (later : Env) (u : History)
      → (let (r, t') = notify c upper ctx title body priority tags click_url env t in
          (r ≡ ok tt) × IsAdded t t')
        × (let u' = (handle_entry c base_url topic (some (id, payload)) later u).1 in
            IsPushed base_url topic id u u' ⊎ IsKept base_url topic id u u')
  unfolding handle_entry attempt process_notification send move_to_failed running
  notify-pushes parsed env t base_url topic id later u =
      let move = move_call c base_url topic id payload in
      let ack = ack_call c base_url topic id payload in
      (
        notify-IsAdded env t,
        elim (Result-cases (later u (push_call base_url topic))) [
          | inl (_, e) ↦ inl (
            later ((push_call base_url topic, ok tt) ∷ u) ack,
            ground (arith, parsed, e, headers_lem),
          )
          | inr (x, e) ↦
              let u₁ : History = (push_call base_url topic, raised x) ∷ u in
              elim (Result-cases (later u₁ move)) [
                | inl (_, f) ↦
                    let u₂ : History = (move, ok tt) ∷ u₁ in
                    inr (x, later u₂ ack, inl (ground (arith, parsed, e, f, headers_lem)))
                | inr (y, f) ↦
                    let u₂ : History = (move, raised y) ∷ u₁ in
                    let b : Result (Unit {0}) = later u₂ move in
                    let u₃ : History = (move, b) ∷ u₂ in
                    inr (
                      x,
                      later u₃ ack,
                      inr (
                        y,
                        b,
                        ground (arith, parsed, e, f, headers_lem, Result-cases (later u₂ move)),
                      ),
                    )
              ]
        ],
      )
