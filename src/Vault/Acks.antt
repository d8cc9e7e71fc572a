-- ===== src/Vault/Acks.antt =====
-- XACK is called for every vault operation that is read.
use belgrade_os.Base.{
  ℕ, zero, suc, String, ◌≡◌, refl, Bool, true, false, Option, none, some, ◌∷◌, inl, inr, arith,
}
use belgrade_os.Base.Text.{Bytes}
use belgrade_os.Base.Dict.{lookup}
use belgrade_os.Wire.{VaultOperation, VaultOpType}
use belgrade_os.World.{Cmd, Result-cases}
use belgrade_os.Prog.{Env, History}
use belgrade_os.Codec.{Codec}
use belgrade_os.Calls.{running}
use belgrade_os.Delivery.{delivered, xack_calls, IsSettled}
use belgrade_os.Streams.{vault_ops_stream}
use belgrade_os.Vault.{
  Paths, write_file, delete_file, perform, under_lock, locked, acquire_lock, release_lock,
  process_vault_op, target_of, entry_of, read_vault_op, parse, handle_entry, consume_one,
  consumer_loop, consumer_group,
}

module _ (paths : Paths) (c : Codec) where
  perform-keeps :
      (kind : VaultOpType) (target : String) (content : Bytes) (env : Env) (t : History)
      → let t' = (perform paths kind target content env t).1 in
        (delivered vault_ops_stream t' ≡ delivered vault_ops_stream t)
        × (xack_calls vault_ops_stream t' ≡ xack_calls vault_ops_stream t)
  unfolding running perform write_file delete_file
  perform-keeps VaultOpType.write target content env t = ground arith
  perform-keeps VaultOpType.delete target content env t = ground arith
  perform-keeps VaultOpType.unspecified target content env t = (refl, refl)
  perform-keeps (VaultOpType.unknown n) target content env t = (refl, refl)

  under_lock-keeps :
      (op : VaultOperation) (target : String) (got : Bool) (env : Env) (t : History)
      → let t' = (under_lock paths op target got env t).1 in
        (delivered vault_ops_stream t' ≡ delivered vault_ops_stream t)
        × (xack_calls vault_ops_stream t' ≡ xack_calls vault_ops_stream t)
  unfolding running under_lock release_lock
  under_lock-keeps op target false env t = (refl, refl)
  under_lock-keeps op target true env t =
      ground (arith, perform-keeps op.op target op.content env t)

  locked-keeps :
      (op : VaultOperation) (target : Option String) (env : Env) (t : History)
      → let t' = (locked paths op target env t).1 in
        (delivered vault_ops_stream t' ≡ delivered vault_ops_stream t)
        × (xack_calls vault_ops_stream t' ≡ xack_calls vault_ops_stream t)
  unfolding running locked acquire_lock
  locked-keeps op none env t = (refl, refl)
  locked-keeps op (some target) env t = elim (Result-cases (acquire_lock op.path env t).0) [
    | inr (x, e) ↦ ground arith
    | inl (got, e) ↦
        ground (arith, under_lock-keeps op target got env (acquire_lock op.path env t).1)
  ]

  process_vault_op-keeps :
      (op : VaultOperation) (env : Env) (t : History)
      → let t' = (process_vault_op paths op env t).1 in
        (delivered vault_ops_stream t' ≡ delivered vault_ops_stream t)
        × (xack_calls vault_ops_stream t' ≡ xack_calls vault_ops_stream t)
  unfolding running process_vault_op
  process_vault_op-keeps op env t = ground (arith, locked-keeps op (target_of paths op.path) env t)

  handle_entry-acks :
      (id : String) (payload : Option Bytes) (env : Env) (t : History)
      → let t' = (handle_entry paths c (some (id, payload)) env t).1 in
        (delivered vault_ops_stream t' ≡ delivered vault_ops_stream t)
        × (xack_calls vault_ops_stream t' ≡ id ∷ xack_calls vault_ops_stream t)
  unfolding running handle_entry parse
  handle_entry-acks id none env t = ground arith
  handle_entry-acks id (some payload) env t = elim (Result-cases (c.parse_vault_op payload)) [
    | inl (op, e) ↦ ground (arith, process_vault_op-keeps op env t)
    | inr (x, e) ↦ ground arith
  ]

  consume_one-acks :
      (worker_id : String) (env : Env) (t : History)
      → IsSettled vault_ops_stream t
      → IsSettled vault_ops_stream (consume_one paths c worker_id env t).1
  unfolding running consume_one read_vault_op entry_of handle_entry
  consume_one-acks worker_id env t h =
      elim (Result-cases (env t (Cmd.xreadgroup vault_ops_stream consumer_group worker_id))) [
        | inl (none, e) ↦ ground arith
        | inl (some m, e) ↦ ground (
          arith,
          handle_entry-acks m.id (lookup "data" m.fields) env
              (read_vault_op paths worker_id env t).1,
        )
        | inr (x, e) ↦ ground arith
      ]

  -- The vault service starts with XACK called for every entry that was read. Then after any number
  -- of turns, whether the loop goes on or an exception has ended it, XACK has been called for every
  -- entry that it has read, once and in order, also where it lacks its data or the operation failed.
  pub consumer_loop-settles :
      (rounds : ℕ) (worker_id : String) (env : Env) (t : History)
      → IsSettled vault_ops_stream t
      → IsSettled vault_ops_stream (consumer_loop paths c rounds worker_id env t).1
  unfolding running consumer_loop
  consumer_loop-settles zero worker_id env t h = h
  consumer_loop-settles (suc rounds) worker_id env t h = ground (
    arith,
    consume_one-acks worker_id env t h,
    consumer_loop-settles rounds worker_id env (consume_one paths c worker_id env t).1,
  )
