-- ===== src/Inference/Waiting.antt =====
-- How long the worker waits for a tool result, and which one it takes.
use belgrade_os.Base.{
  ℕ, zero, suc, ◌+◌, ◌≤◌, String, ◌≡◌, refl, sym, subst, ◌⊎◌, inl, inr, Bool-cases, Option-cases,
  true, Option, none, some, [], ◌∷◌, arith,
}
use belgrade_os.Base.Dict.{lookup}
use belgrade_os.Base.Text.{Bytes}
use belgrade_os.World.{Exn, Result, Result-cases, ok, raised, Cmd, Message}
use belgrade_os.Prog.{Prog, Env, History}
use belgrade_os.Calls.{running}
use belgrade_os.Streams.{tool_results_stream}
use belgrade_os.Inference.Results.{
  is_for, data_of, match_entry, read_matching, missing_data, read_tool_result,
  max_tool_result_iterations,
}

-- How many reads of the result stream a history has.
abbrev pub reads : History → ℕ
reads [] = 0
reads ((Cmd.xreadgroup _ _ _, _) ∷ t) = reads t + 1
reads (_ ∷ t) = reads t

abbrev pub read_call : String → String → Cmd
read_call group consumer_id = Cmd.xreadgroup tool_results_stream group consumer_id

-- How the waiting ends, after at most `turns` reads: with nothing after all of them or after a read
-- of nothing, with an exception, or with the entry that was read last, which is one of the task.
abbrev pub EndsWell :
    ℕ → String → String → String → History → Result (Option (String × Bytes)) × History → Type 0
EndsWell turns group consumer_id task_id t (r, t') =
    (reads t' ≤ reads t + turns)
    × (((r ≡ ok none)
          × ((reads t' ≡ reads t + turns)
              ⊎ ((before : History) × (t' ≡ (read_call group consumer_id, ok none) ∷ before))))
        ⊎ ((x : Exn) × (r ≡ raised x))
        ⊎ ((m : Message) × (payload : Bytes) × (before : History) × (r ≡ ok (some (m.id, payload)))
            × (lookup "data" m.fields ≡ some payload)
            × (is_for task_id m ≡ true)
            × (t' ≡ (read_call group consumer_id, ok (some m)) ∷ before)))

module _ (group consumer_id task_id : String) where
  abbrev call : Cmd
  call = read_call group consumer_id

  data_of_lem :
      (m : Message) (env : Env) (t : History)
      → ((x : Exn) × (data_of m env t ≡ (raised x, t)))
        ⊎ ((payload : Bytes) × (lookup "data" m.fields ≡ some payload)
            × (data_of m env t ≡ (ok (m.id, payload), t)))
  unfolding data_of running
  data_of_lem m env t = elim (Option-cases (lookup "data" m.fields)) [
    | inl e ↦ inl (missing_data, ground arith)
    | inr (payload, e) ↦ inr (payload, e, ground arith)
  ]

  -- from the turns after it
  later :
      (turns : ℕ) (t t' : History) (end : Result (Option (String × Bytes)) × History)
      → reads t' ≡ suc (reads t)
      → EndsWell turns group consumer_id task_id t' end
      → EndsWell (suc turns) group consumer_id task_id t end
  later turns t t' end step (le, inl (e, inl f)) = (omega arith, inl (e, inl (omega arith)))
  later turns t t' end step (le, inl (e, inr f)) = (omega arith, inl (e, inr f))
  later turns t t' end step (le, inr (inl h)) = (omega arith, inr (inl h))
  later turns t t' end step (le, inr (inr h)) = (omega arith, inr (inr h))

  -- what follows a read
  match_entry-EndsWell :
      (turns : ℕ) (rest : Prog (Option (String × Bytes)))
      → ((env : Env) (t : History) → EndsWell turns group consumer_id task_id t (rest env t))
      → (found : Option Message) (env : Env) (t : History)
      → EndsWell
          (suc turns)
          group
          consumer_id
          task_id
          t
          (match_entry group task_id rest found env ((read_call group consumer_id, ok found) ∷ t))
  unfolding match_entry running
  match_entry-EndsWell turns rest ends none env t = (omega arith, inl (refl, inr (t, refl)))
  match_entry-EndsWell turns rest ends (some m) env t =
      let t₁ : History = (read_call group consumer_id, ok (some m)) ∷ t in
      elim (Bool-cases (is_for task_id m)) [
        | inl e ↦ elim (data_of_lem m env t₁) [
          | inl (x, f) ↦ rw e (ground (arith, f), inr (inl (x, ground (arith, f))))
          | inr (payload, f, g) ↦ rw e (
            ground (arith, g),
            inr (inr (m, payload, t, ground (arith, g), f, e, ground (arith, g))),
          )
        ]
        | inr e ↦ elim (Result-cases (env t₁ (Cmd.xack tool_results_stream group m.id))) [
          | inr (x, f) ↦ rw e (ground (arith, f), inr (inl (x, ground (arith, f))))
          | inl (u, f) ↦
              let t₂ : History =
                (Cmd.xack tool_results_stream group m.id, ok tt)
                ∷ (read_call group consumer_id, ok (some m))
                ∷ t in
              let same : rest env t₂
                  ≡ match_entry group task_id rest (some m) env
                      ((read_call group consumer_id, ok (some m)) ∷ t) =
                ground (arith, e, f) in
              subst (EndsWell (suc turns) group consumer_id task_id t) same (
                later turns t
                  ((Cmd.xack tool_results_stream group m.id, ok tt)
                    ∷ (read_call group consumer_id, ok (some m))
                    ∷ t)
                  _ (omega arith) (ends env t₂))
        ]
      ]

  read_matching-EndsWell :
      (turns : ℕ) (env : Env) (t : History)
      → EndsWell turns group consumer_id task_id t
          (read_matching turns group consumer_id task_id env t)
  unfolding read_matching running
  read_matching-EndsWell zero env t = (omega arith, inl (refl, inl (omega arith)))
  read_matching-EndsWell (suc turns) env t =
      elim (Result-cases (env t (read_call group consumer_id))) [
        | inr (x, e) ↦ (ground arith, inr (inl (x, ground arith)))
        | inl (found, e) ↦
            let same : read_matching (suc turns) group consumer_id task_id env t
                ≡ match_entry group task_id (read_matching turns group consumer_id task_id) found
                    env ((read_call group consumer_id, ok found) ∷ t) =
              ground (arith, e) in
            subst (EndsWell (suc turns) group consumer_id task_id t) (sym same) (
              match_entry-EndsWell turns (read_matching turns group consumer_id task_id)
                (read_matching-EndsWell turns) found env t)
      ]

  -- The worker waits for at most ten reads of the result stream. What it takes is the entry that was
  -- read last, and that one is marked with the task's id; it gives up after exactly ten reads or
  -- after a read that gave nothing; or an exception ends the waiting.
  pub read_tool_result-EndsWell :
      (env : Env) (t : History)
      → EndsWell 10 group consumer_id task_id t (read_tool_result group consumer_id task_id env t)
  unfolding read_tool_result
  read_tool_result-EndsWell = read_matching-EndsWell max_tool_result_iterations
