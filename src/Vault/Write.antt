-- ===== src/Vault/Write.antt =====
-- A vault file is replaced as a whole.
use belgrade_os.Base.{String, ◌≡◌, Bool, true, ◌∷◌, inl, inr, arith}
use belgrade_os.Base.Text.{Bytes}
use belgrade_os.World.{Cmd, Result-cases, ok}
use belgrade_os.Prog.{Env, History}
use belgrade_os.Calls.{running}
use belgrade_os.Vault.{Paths, write_file}

module _ (paths : Paths) (target : String) (content : Bytes) where
  write_file_returns :
      (env : Env) (t : History) → (b : Bool) × ((write_file paths target content env t).0 ≡ ok b)
  unfolding running write_file
  write_file_returns env t = elim (Result-cases (write_file paths target content env t).0) [
    | inl returned ↦ returned
    | inr (x, e) ↦ absurd (ground arith)
  ]

  -- Writing never raises. Where it succeeds, the folders were made, the whole content was written to
  -- the temporary file, and that file was then renamed to the target, each without an exception; and
  -- no other call was made.
  pub write_file_atomic :
      (env : Env) (t : History)
      → let (r, t') = write_file paths target content env t in
        (r ≡ ok true
          → (tmp_path : String) × (paths.tmp_of target ≡ ok tmp_path)
            × (t'
                ≡ (Cmd.fs_rename tmp_path target, ok tt)
                  ∷ (Cmd.fs_write tmp_path content, ok tt)
                  ∷ (Cmd.fs_mkdirs (paths.parent target), ok tt)
                  ∷ t))
        × ((b : Bool) × (r ≡ ok b))
  unfolding running write_file
  write_file_atomic env t =
      let mkdirs = Cmd.fs_mkdirs (paths.parent target) in
      (
        λ h. elim (Result-cases (env t mkdirs)) [
          | inr (x, e) ↦ absurd (ground arith)
          | inl (tt, e) ↦ elim (Result-cases (paths.tmp_of target)) [
            | inr (x, f) ↦ absurd (ground arith)
            | inl (tmp_path, f) ↦
                let t₁ : History = (mkdirs, ok tt) ∷ t in
                let write = Cmd.fs_write tmp_path content in
                elim (Result-cases (env t₁ write)) [
                  | inr (x, g) ↦ absurd (ground arith)
                  | inl (tt, g) ↦
                      let t₂ : History = (write, ok tt) ∷ t₁ in
                      elim (Result-cases (env t₂ (Cmd.fs_rename tmp_path target))) [
                        | inr (x, k) ↦ absurd (ground arith)
                        | inl (tt, k) ↦ (tmp_path, f, ground arith)
                      ]
                ]
          ]
        ],
        write_file_returns env t,
      )
