-- ===== src/Vault/Tests.antt =====
-- The vault service at concrete inputs.
use belgrade_os.Base.{
  String, ◌<>◌, ◌≡◌, ◌⊎◌, refl, Bool, true, false, is_empty, starts_with, none, some, [], ◌∷◌,
}
use belgrade_os.World.{ok, Cmd}
use belgrade_os.Prog.{History}
use belgrade_os.Calls.{running}
use belgrade_os.Delivery.{commands}
use belgrade_os.Sample.{env, vault_op}
use belgrade_os.Vault.{
  Paths, target_of, write_file, delete_file, perform, under_lock, locked, acquire_lock,
  release_lock, process_vault_op,
}
use belgrade_os.Vault.Lock.{lock_call, IsRefused, IsLocked, process_vault_op-locks}
use belgrade_os.Vault.Write.{write_file_atomic}

abbrev paths : Paths
paths = record {
  resolve = λ path. ok ("/vault/" <> path);
  root = ok "/vault";
  parent = λ _. "/vault";
  tmp_of = λ path. ok (path <> ".tmp");
}

abbrev processed : History
processed = (process_vault_op paths vault_op env []).1

-- A write under its lock.
processed_calls :
    commands processed
    ≡ Cmd.redis_delete "vault:lock:a.md"
      ∷ Cmd.fs_rename "/vault/a.md.tmp" "/vault/a.md"
      ∷ Cmd.fs_write "/vault/a.md.tmp" (35 ∷ [])
      ∷ Cmd.fs_mkdirs "/vault"
      ∷ lock_call vault_op
      ∷ []
unfolding running write_file delete_file perform under_lock locked acquire_lock release_lock
    process_vault_op
processed_calls = refl

process_vault_op-locks_example :
    let got = env [] (lock_call vault_op) in
    (((is_empty vault_op.path ≡ true) ⊎ (target_of paths vault_op.path ≡ none)) × (processed ≡ []))
    ⊎ ((target : String) × (root : String) × (is_empty vault_op.path ≡ false)
        × (target_of paths vault_op.path ≡ some target)
        × (paths.root ≡ ok root)
        × (starts_with target root ≡ true)
        × (IsRefused paths vault_op target got [] processed
            ⊎ IsLocked paths vault_op target got [] processed))
process_vault_op-locks_example = process_vault_op-locks paths vault_op env []

write_file_atomic_example :
    let (r, t') = write_file paths "/vault/a.md" (35 ∷ []) env [] in
    (r ≡ ok true
      → (tmp_path : String) × (paths.tmp_of "/vault/a.md" ≡ ok tmp_path)
        × (t'
            ≡ (Cmd.fs_rename tmp_path "/vault/a.md", ok tt)
              ∷ (Cmd.fs_write tmp_path (35 ∷ []), ok tt)
              ∷ (Cmd.fs_mkdirs "/vault", ok tt)
              ∷ []))
    × ((b : Bool) × (r ≡ ok b))
write_file_atomic_example = write_file_atomic paths "/vault/a.md" (35 ∷ []) env []
