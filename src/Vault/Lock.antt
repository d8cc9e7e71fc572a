-- ===== src/Vault/Lock.antt =====
-- What an operation on the vault touches, and its lock.
use belgrade_os.Base.{
  String, ◌≡◌, ◌≢◌, ◌⊎◌, starts_with, refl, Bool, Bool-cases, Option-cases, true, false, none, some,
  ◌∷◌, is_empty, inl, inr, arith,
}
use belgrade_os.Base.Int.{pos}
use belgrade_os.Base.Text.{encode}
use belgrade_os.Wire.{VaultOperation, VaultOpType}
use belgrade_os.World.{Cmd, Result, Result-cases, ok}
use belgrade_os.Prog.{Env, History}
use belgrade_os.Prog.Emits.{Extends, Emits, Emits-try_except, Emits-bind, Emits-lift_bind}
use belgrade_os.Calls.{running}
use belgrade_os.Calls.Emits.{emits_calls, Emits-fs_mkdirs}
use belgrade_os.Vault.{
  Paths, target_of, lock_key, write_file, delete_file, perform, under_lock, locked, acquire_lock,
  release_lock, process_vault_op,
}

-- A call on the target itself, on its folder, or on the temporary file beside it that takes the
-- content of the operation.
abbrev pub OnTarget : Paths → VaultOperation → String → Cmd → Type 0
OnTarget paths op target (Cmd.fs_mkdirs p) = p ≡ paths.parent target
OnTarget paths op target (Cmd.fs_exists p) = p ≡ target
OnTarget paths op target (Cmd.fs_remove p) = p ≡ target
OnTarget paths op target (Cmd.fs_write p content) =
    (paths.tmp_of target ≡ ok p) × (content ≡ op.content)
OnTarget paths op target (Cmd.fs_rename p q) = (paths.tmp_of target ≡ ok p) × (q ≡ target)
OnTarget paths op target _ = ⊥

abbrev pub lock_call : VaultOperation → Cmd
lock_call op = Cmd.redis_set_nx (lock_key op.path) (encode "1") (pos 5)

abbrev pub release_call : VaultOperation → Cmd
release_call op = Cmd.redis_delete (lock_key op.path)

module _ (paths : Paths) (op : VaultOperation) (target : String) where
  write_file-OnTarget : Emits (OnTarget paths op target) (write_file paths target op.content)
  unfolding write_file
  write_file-OnTarget =
      Emits-try_except _ _
        (Emits-bind _ _ (Emits-fs_mkdirs (paths.parent target) refl)
          (λ _. Emits-lift_bind _ _ (λ tmp_path e. search emits_calls depth 10)))
        (λ exc. search emits_calls)

  delete_file-OnTarget : Emits (OnTarget paths op target) (delete_file paths target)
  unfolding delete_file
  delete_file-OnTarget = search emits_calls depth 10

  perform-OnTarget :
      (kind : VaultOpType) → Emits (OnTarget paths op target) (perform paths kind target op.content)
  unfolding perform
  perform-OnTarget VaultOpType.write = write_file-OnTarget
  perform-OnTarget VaultOpType.delete = delete_file-OnTarget
  perform-OnTarget VaultOpType.unspecified = search emits_calls
  perform-OnTarget (VaultOpType.unknown n) = search emits_calls

  -- The history of an operation that did not get its lock, and of one that did.
  abbrev pub IsRefused : Result Bool → History → History → Type 0
  IsRefused got t t' = (got ≢ ok true) × (t' ≡ (lock_call op, got) ∷ t)

  abbrev pub IsLocked : Result Bool → History → History → Type 0
  IsLocked got t t' =
      (got ≡ ok true)
      × (between : History) × (a : Result (Unit {0})) × Extends (OnTarget paths op target)
          ((lock_call op, got) ∷ t) between
      × (t' ≡ (release_call op, a) ∷ between)

  locked_lem :
      (env : Env) (t : History)
      → let got = env t (lock_call op) in
        let t' = (locked paths op (some target) env t).1 in IsRefused got t t' ⊎ IsLocked got t t'
  unfolding running locked under_lock acquire_lock release_lock
  locked_lem env t = elim (Result-cases (env t (lock_call op))) [
    | inr (x, e) ↦ inl (λ eq. ground arith, ground arith)
    | inl (false, e) ↦ inl (λ eq. ground arith, ground arith)
    | inl (true, e) ↦
        let t₁ : History = (lock_call op, ok true) ∷ t in
        let t₂ = (perform paths op.op target op.content env t₁).1 in
        inr
          (e, t₂, env t₂ (release_call op), rw e ((perform-OnTarget op.op).at env t₁), ground arith)
  ]

module _ (paths : Paths) (op : VaultOperation) where
  target_of-root :
      (target : String)
      → target_of paths op.path ≡ some target
      → (root : String) × (paths.root ≡ ok root) × (starts_with target root ≡ true)
  target_of-root target h = elim (Result-cases (paths.resolve op.path)) [
    | inr (x, e) ↦ absurd (ground arith)
    | inl (resolved, e) ↦ elim (Result-cases paths.root) [
      | inr (x, f) ↦ absurd (ground arith)
      | inl (root, f) ↦ (root, f, ground arith)
    ]
  ]

  -- An operation whose path is empty or fails the check makes no call. Any other has a target whose
  -- path begins with the vault's root. It asks for the lock of its path; without the lock it makes
  -- no further call, and with it, whatever the file system answers, it makes calls on that target
  -- alone and at last releases the lock.
  pub process_vault_op-locks :
      (env : Env) (t : History)
      → let got = env t (lock_call op) in
        let t' = (process_vault_op paths op env t).1 in
        (((is_empty op.path ≡ true) ⊎ (target_of paths op.path ≡ none)) × (t' ≡ t))
        ⊎ ((target : String) × (root : String) × (is_empty op.path ≡ false)
            × (target_of paths op.path ≡ some target)
            × (paths.root ≡ ok root)
            × (starts_with target root ≡ true)
            × (IsRefused paths op target got t t' ⊎ IsLocked paths op target got t t'))
  unfolding process_vault_op running locked
  process_vault_op-locks env t = elim (Bool-cases (is_empty op.path)) [
    | inl e ↦ inl (inl e, ground arith)
    | inr e ↦ elim (Option-cases (target_of paths op.path)) [
      | inl f ↦ inl (inr f, ground arith)
      | inr (target, f) ↦
          let (root, g, inside) = target_of-root target f in
          inr (target, root, e, f, g, inside, rw (e, f) (locked_lem paths op target env t))
    ]
  ]
