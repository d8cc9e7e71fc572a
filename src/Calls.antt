-- ===== src/Calls.antt =====
-- One program for each call that may raise. The names are those of the commands.
pub mod Emits
use belgrade_os.Base.{ℕ, List, String, Bool, Option, ◌∷◌}
use belgrade_os.Base.Dict.{Dict}
use belgrade_os.Base.Text.{Bytes}
use belgrade_os.Base.Int.{ℤ}
use belgrade_os.Wire.{Json}
use belgrade_os.World.{ContainerEnd, Message, Cmd}
use belgrade_os.Prog.{Prog, pure, raise, lift, or_raise, ask, try_except, try_finally, ◌>>=◌}

unfoldable pub xreadgroup : String → String → String → Prog (Option Message)
xreadgroup s g c env t = let r = env t (Cmd.xreadgroup s g c) in (r, (Cmd.xreadgroup s g c, r) ∷ t)

unfoldable pub xack : String → String → String → Prog Unit
xack s g m env t = let r = env t (Cmd.xack s g m) in (r, (Cmd.xack s g m, r) ∷ t)

unfoldable pub xadd : String → Dict Bytes → Prog Unit
xadd s f env t = let r = env t (Cmd.xadd s f) in (r, (Cmd.xadd s f, r) ∷ t)

unfoldable pub publish : String → Bytes → Prog Unit
publish s b env t = let r = env t (Cmd.publish s b) in (r, (Cmd.publish s b, r) ∷ t)

unfoldable pub redis_get : String → Prog (Option Bytes)
redis_get k env t = let r = env t (Cmd.redis_get k) in (r, (Cmd.redis_get k, r) ∷ t)

unfoldable pub redis_delete : String → Prog Unit
redis_delete k env t = let r = env t (Cmd.redis_delete k) in (r, (Cmd.redis_delete k, r) ∷ t)

unfoldable pub redis_set : String → Bytes → ℤ → Prog Unit
redis_set k v ttl env t =
    let r = env t (Cmd.redis_set k v ttl) in (r, (Cmd.redis_set k v ttl, r) ∷ t)

unfoldable pub redis_set_nx : String → Bytes → ℤ → Prog Bool
redis_set_nx k v ttl env t =
    let r = env t (Cmd.redis_set_nx k v ttl) in (r, (Cmd.redis_set_nx k v ttl, r) ∷ t)

unfoldable pub xgroup_create : String → String → Prog Unit
xgroup_create s g env t =
    let r = env t (Cmd.xgroup_create s g) in (r, (Cmd.xgroup_create s g, r) ∷ t)

unfoldable pub replace_hash : String → Dict String → Prog Unit
replace_hash k f env t = let r = env t (Cmd.replace_hash k f) in (r, (Cmd.replace_hash k f, r) ∷ t)

unfoldable pub http_get : String → Prog Json
http_get url env t = let r = env t (Cmd.http_get url) in (r, (Cmd.http_get url, r) ∷ t)

unfoldable pub http_post : String → Json → Prog Json
http_post url j env t = let r = env t (Cmd.http_post url j) in (r, (Cmd.http_post url j, r) ∷ t)

unfoldable pub http_notify : String → Dict String → String → Prog Unit
http_notify url hs b env t =
    let r = env t (Cmd.http_notify url hs b) in (r, (Cmd.http_notify url hs b, r) ∷ t)

unfoldable pub fs_mkdirs : String → Prog Unit
fs_mkdirs p env t = let r = env t (Cmd.fs_mkdirs p) in (r, (Cmd.fs_mkdirs p, r) ∷ t)

unfoldable pub fs_exists : String → Prog Bool
fs_exists p env t = let r = env t (Cmd.fs_exists p) in (r, (Cmd.fs_exists p, r) ∷ t)

unfoldable pub fs_remove : String → Prog Unit
fs_remove p env t = let r = env t (Cmd.fs_remove p) in (r, (Cmd.fs_remove p, r) ∷ t)

unfoldable pub fs_write : String → Bytes → Prog Unit
fs_write p b env t = let r = env t (Cmd.fs_write p b) in (r, (Cmd.fs_write p b, r) ∷ t)

unfoldable pub fs_rename : String → String → Prog Unit
fs_rename p q env t = let r = env t (Cmd.fs_rename p q) in (r, (Cmd.fs_rename p q, r) ∷ t)

unfoldable pub fs_read : String → Prog Bytes
fs_read p env t = let r = env t (Cmd.fs_read p) in (r, (Cmd.fs_read p, r) ∷ t)

unfoldable pub docker_run : List String → Prog ContainerEnd
docker_run args env t = let r = env t (Cmd.docker_run args) in (r, (Cmd.docker_run args, r) ∷ t)

unfoldable pub docker_rm : String → Prog Unit
docker_rm name env t = let r = env t (Cmd.docker_rm name) in (r, (Cmd.docker_rm name, r) ∷ t)

unfoldable pub xadd_maxlen : String → Dict Bytes → ℕ → Prog Unit
xadd_maxlen a b c env t =
    let r = env t (Cmd.xadd_maxlen a b c) in (r, (Cmd.xadd_maxlen a b c, r) ∷ t)

unfoldable pub subscribe : String → Prog Unit
subscribe a env t = let r = env t (Cmd.subscribe a) in (r, (Cmd.subscribe a, r) ∷ t)

unfoldable pub unsubscribe : String → Prog Unit
unsubscribe a env t = let r = env t (Cmd.unsubscribe a) in (r, (Cmd.unsubscribe a, r) ∷ t)

unfoldable pub close_pubsub : Prog Unit
close_pubsub env t = let r = env t Cmd.close_pubsub in (r, (Cmd.close_pubsub, r) ∷ t)

unfoldable pub get_message : Prog (Option Bytes)
get_message env t = let r = env t Cmd.get_message in (r, (Cmd.get_message, r) ∷ t)

unfoldable pub db_session : Prog Unit
db_session env t = let r = env t Cmd.db_session in (r, (Cmd.db_session, r) ∷ t)

unfoldable pub db_execute : String → Prog Unit
db_execute a env t = let r = env t (Cmd.db_execute a) in (r, (Cmd.db_execute a, r) ∷ t)

unfoldable pub db_close : Prog Unit
db_close env t = let r = env t Cmd.db_close in (r, (Cmd.db_close, r) ∷ t)

unfoldable pub signing_key : String → String → Prog String
signing_key a b env t = let r = env t (Cmd.signing_key a b) in (r, (Cmd.signing_key a b, r) ∷ t)

unfoldable pub aclose : String → Prog Unit
aclose a env t = let r = env t (Cmd.aclose a) in (r, (Cmd.aclose a, r) ∷ t)

-- A proof that computes with programs names this on its `unfolding` line.
unfoldable pub running : Unit {0}
unfolding pure raise lift or_raise ask try_except try_finally ◌>>=◌ xreadgroup xack xadd publish
    redis_get redis_delete redis_set redis_set_nx xgroup_create replace_hash http_get http_post
    http_notify fs_mkdirs fs_exists fs_remove fs_write fs_rename fs_read docker_run docker_rm
    xadd_maxlen subscribe unsubscribe close_pubsub get_message db_session db_execute db_close
    signing_key aclose
running = tt
