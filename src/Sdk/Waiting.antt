-- ===== src/Sdk/Waiting.antt =====
-- How long `InferenceAdapter.stream` waits.
use belgrade_os.Base.{
  ℕ, zero, suc, ◌+◌, ◌≤◌, ◌≡◌, ◌≢◌, ◌⊎◌, inl, inr, Bool-cases, true, Option, none, some, [], ◌∷◌,
  String, leb, arith,
}
use belgrade_os.Base.Text.{Bytes}
use belgrade_os.World.{Result-cases, ok, Cmd}
use belgrade_os.Prog.{Prog, Env, History}
use belgrade_os.Prog.Emits.{Extends, same, more, Extends-trans}
use belgrade_os.Calls.{running}
use belgrade_os.Codec.{Codec}
use belgrade_os.Sdk.Context.{Context, need_redis}
use belgrade_os.Sdk.Reading.{
  Events, is_terminal, next_message, handle_message, stream_loop, stream_body, stream, channel,
}
use belgrade_os.Sdk.Terminal.{Quiet, next_message-Quiet}

-- How often the clock was read.
abbrev pub ticks : History → ℕ
ticks [] = 0
ticks ((Cmd.monotonic_ns, _) ∷ t) = ticks t + 1
ticks (_ ∷ t) = ticks t

-- At the k-th reading of the clock after the one at the history `start`, and from then on, `timeout_ns`
-- have passed.
abbrev pub PassesWithin : ℕ → ℕ → Env → History → Type 0
PassesWithin k timeout_ns env start =
    (t : History)
    → Extends Quiet start t
    → ticks start + k ≤ ticks t
    → leb (env start Cmd.monotonic_ns + timeout_ns) (env t Cmd.monotonic_ns) ≡ true

next_message-ticks : (env : Env) (t : History) → ticks (next_message env t).1 ≡ ticks t
unfolding next_message running
next_message-ticks env t = elim (Result-cases (env t Cmd.get_message)) [
  | inl (o, e) ↦ ground arith
  | inr (x, e) ↦ ground arith
]

le_cases : (a b : ℕ) → (a ≤ b) ⊎ (suc b ≤ a)
le_cases a b = omega arith

-- The run was not cut off by the bound on its turns.
abbrev NotCut : Prog Events → Env → History → Type 0
NotCut m env t = (m env t).0 ≢ ok none

module _ (c : Codec) where
  handle_message-NotCut :
      (rest : Prog Events) (o : Option Bytes) (env : Env) (t : History)
      → NotCut rest env t
      → NotCut (handle_message c rest o) env t
  unfolding handle_message running
  handle_message-NotCut rest none env t k h = k h
  handle_message-NotCut rest (some payload) env t k h =
      elim (Result-cases (c.parse_thought payload)) [
        | inr (x, e) ↦ ground arith
        | inl (event, e) ↦ elim (Bool-cases (is_terminal event.type)) [
          | inl f ↦ ground arith
          | inr f ↦ elim (Result-cases (rest env t).0) [
            | inr (x, g) ↦ ground arith
            | inl (none, g) ↦ k g
            | inl (some events', g) ↦ ground arith
          ]
        ]
      ]

  module _ (k timeout_ns : ℕ) (env : Env) (start : History)
      (passes : PassesWithin k timeout_ns env start) where
    abbrev deadline : ℕ
    deadline = env start Cmd.monotonic_ns + timeout_ns

    stream_loop-NotCut :
        (rounds : ℕ) (t : History)
        → Extends Quiet start t
        → 1 ≤ rounds
        → ticks start + k + 1 ≤ rounds + ticks t
        → NotCut (stream_loop c rounds deadline) env t
    unfolding stream_loop running
    stream_loop-NotCut zero t quiet le enough h = omega arith
    stream_loop-NotCut (suc rounds) t quiet le enough h =
        let now : ℕ = env t Cmd.monotonic_ns in
        let t₁ : History = (Cmd.monotonic_ns, now) ∷ t in
        let read = next_message env t₁ in
        elim (Bool-cases (leb deadline now)) [
          | inl e ↦ ground arith
          | inr e ↦ elim (le_cases (ticks start + k) (ticks t)) [
            | inl passed ↦ ground (arith, passes t quiet passed)
            | inr early ↦ elim (Result-cases (next_message env t₁).0) [
              | inr (x, f) ↦ ground arith
              | inl (o, f) ↦
                  handle_message-NotCut (stream_loop c rounds deadline) o env
                    (next_message env t₁).1
                    (stream_loop-NotCut rounds (next_message env t₁).1
                      (Extends-trans quiet (
                        Extends-trans (more Cmd.monotonic_ns now tt same)
                          ((next_message-Quiet c).at env t₁)))
                      (omega arith) (omega (arith, next_message-ticks env t₁)))
                    (ground arith)
            ]
          ]
        ]

  abbrev subscribed : String → History → History
  subscribed task_id t = (Cmd.subscribe (channel task_id), ok tt) ∷ t

  -- An inference stream comes to its end, by its last event, the timeout or another exception, within
  -- as many turns as the clock takes readings to pass the timeout.
  pub stream-ends :
      (k timeout_ns : ℕ) (ctx : Context) (task_id : String) (env : Env) (t : History)
      → PassesWithin k timeout_ns env ((Cmd.subscribe (channel task_id), ok tt) ∷ t)
      → (rounds : ℕ) → 1 ≤ rounds
      → k ≤ rounds
      → (stream c rounds ctx task_id timeout_ns env t).0 ≢ ok none
  unfolding stream stream_body need_redis running
  stream-ends k timeout_ns ctx task_id env t passes rounds le enough h =
      let t₁ = subscribed task_id t in
      let now : ℕ = env (subscribed task_id t) Cmd.monotonic_ns in
      elim (Bool-cases ctx.has_redis) [
        | inr e ↦ ground arith
        | inl e ↦ elim (Result-cases (env t (Cmd.subscribe (channel task_id)))) [
          | inr (x, f) ↦ ground arith
          | inl (u, f) ↦
              stream_loop-NotCut k timeout_ns env (subscribed task_id t) passes rounds
                ((Cmd.monotonic_ns, env (subscribed task_id t) Cmd.monotonic_ns)
                  ∷ subscribed task_id t)
                (more Cmd.monotonic_ns now tt same) le (omega arith) (ground arith)
        ]
      ]
