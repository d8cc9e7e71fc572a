-- ===== src/Vault.antt =====
-- services/vault_service: files are written and deleted under a lock for each path.
pub mod Lock
pub mod Write
pub mod Acks
pub mod Main
mod Tests
use belgrade_os.Base.{
  ℕ, zero, suc, String, ◌<>◌, Bool, true, false, Option, none, some, if◌then◌else◌, is_empty,
  starts_with,
}
use belgrade_os.Base.Dict.{lookup}
use belgrade_os.Base.Int.{pos}
use belgrade_os.Base.Text.{Bytes, encode}
use belgrade_os.Wire.{VaultOperation, VaultOpType}
use belgrade_os.World.{Exn, Result, ok, raised, Message, type_error}
use belgrade_os.Prog.{Prog, pure, raise, lift, try_except, try_finally, ◌>>=◌, ◌>>◌}
use belgrade_os.Calls.{
  xreadgroup, xack, redis_set_nx, redis_delete, fs_mkdirs, fs_exists, fs_remove, fs_write,
  fs_rename,
}
use belgrade_os.Codec.{Codec}
use belgrade_os.Streams.{vault_ops_stream}

abbrev pub consumer_group : String
consumer_group = "vault-workers"

abbrev pub lock_key : String → String
lock_key path = "vault:lock:" <> path

-- What `pathlib` answers: `(vault_root / path).resolve()`, `vault_root.resolve()`, `path.parent` and
-- `path.with_suffix(path.suffix + ".tmp")`.
pub record Paths : Type 0 where
  pub resolve : String → Result String
  pub root : Result String
  pub parent : String → String
  pub tmp_of : String → Result String

unfoldable pub acquire_lock : String → Prog Bool
acquire_lock path = redis_set_nx (lock_key path) (encode "1") (pos 5)

unfoldable pub release_lock : String → Prog Unit
release_lock path = redis_delete (lock_key path)

abbrev inside : Result String → Result String → Option String
inside (ok target) (ok root) = if starts_with target root then some target else none
inside (ok target) (raised x) = none
inside (raised x) root = none

module _ (paths : Paths) where
  -- `none`: the check of the path fails, or raises.
  abbrev pub target_of : String → Option String
  target_of path = inside (paths.resolve path) paths.root

  unfoldable pub write_file : String → Bytes → Prog Bool
  write_file path content =
      try_except
        (do
          fs_mkdirs (paths.parent path)
          tmp_path ← lift (paths.tmp_of path)
          fs_write tmp_path content
          fs_rename tmp_path path
          pure true)
        (λ exc. pure false)

  unfoldable pub delete_file : String → Prog Bool
  delete_file path =
      try_except (do exists ← fs_exists path; if exists then fs_remove path else pure tt; pure true)
        (λ exc. pure false)

  unfoldable pub perform : VaultOpType → String → Bytes → Prog Bool
  perform VaultOpType.write target content = write_file target content
  perform VaultOpType.delete target content = delete_file target
  perform _ target content = pure false

  unfoldable pub under_lock : VaultOperation → String → Bool → Prog Bool
  under_lock op target false = pure false
  under_lock op target true = try_finally (perform op.op target op.content) (release_lock op.path)

  unfoldable pub locked : VaultOperation → Option String → Prog Bool
  locked op none = pure false
  locked op (some target) = do got ← acquire_lock op.path; under_lock op target got

  unfoldable pub process_vault_op : VaultOperation → Prog Bool
  process_vault_op op = if is_empty op.path then pure false else locked op (target_of op.path)

  -- RedisClient.read_vault_op, whose every exception gives None
  unfoldable pub entry_of : Option Message → Option (String × Option Bytes)
  unfolding lookup
  entry_of none = none
  entry_of (some m) = some (m.id, lookup "data" m.fields)

  unfoldable pub read_vault_op : String → Prog (Option (String × Option Bytes))
  read_vault_op consumer_id =
      try_except
        (do found ← xreadgroup vault_ops_stream consumer_group consumer_id; pure (entry_of found))
        (λ exc. pure none)

  module _ (c : Codec) where
    -- `ParseFromString(None)` raises.
    unfoldable pub parse : Option Bytes → Prog VaultOperation
    parse none = raise (record { fault = type_error; text = "a bytes-like object is required" })
    parse (some payload) = lift (c.parse_vault_op payload)

    unfoldable pub handle_entry : Option (String × Option Bytes) → Prog Unit
    handle_entry none = pure tt
    handle_entry (some (msg_id, payload)) =
        try_finally
          (try_except (do op ← parse payload; process_vault_op op; pure tt) (λ exc. pure tt))
          (xack vault_ops_stream consumer_group msg_id)

    unfoldable pub consume_one : String → Prog Unit
    consume_one worker_id = do found ← read_vault_op worker_id; handle_entry found

    unfoldable pub consumer_loop : ℕ → String → Prog Unit
    consumer_loop zero worker_id = pure tt
    consumer_loop (suc rounds) worker_id = do consume_one worker_id; consumer_loop rounds worker_id
