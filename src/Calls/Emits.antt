-- ===== src/Calls/Emits.antt =====
-- What each of the calls emits.
use belgrade_os.Base.{ℕ, String, List}
use belgrade_os.Base.Dict.{Dict}
use belgrade_os.Base.Text.{Bytes}
use belgrade_os.Base.Int.{ℤ}
use belgrade_os.Wire.{Json}
use belgrade_os.World.{Cmd}
use belgrade_os.Calls.{
  xreadgroup, xack, xadd, publish, redis_get, redis_delete, redis_set, redis_set_nx, xgroup_create,
  replace_hash, http_get, http_post, http_notify, fs_mkdirs, fs_exists, fs_remove, fs_write,
  fs_rename, fs_read, docker_run, docker_rm, xadd_maxlen, subscribe, unsubscribe, close_pubsub,
  get_message, db_session, db_execute, db_close, signing_key, aclose,
}
use belgrade_os.Prog.Emits.{Emits, same, more, emits_rules}

module _ {P : Cmd → Type 0} where
  pub Emits-xreadgroup :
      (s : String) (g : String) (c : String) → P (Cmd.xreadgroup s g c) → Emits P (xreadgroup s g c)
  unfolding xreadgroup
  Emits-xreadgroup s g c p = record {
    at = λ env t. more (Cmd.xreadgroup s g c) (env t (Cmd.xreadgroup s g c)) p same;
  }

  pub Emits-xack :
      (s : String) (g : String) (m : String) → P (Cmd.xack s g m) → Emits P (xack s g m)
  unfolding xack
  Emits-xack s g m p = record {
    at = λ env t. more (Cmd.xack s g m) (env t (Cmd.xack s g m)) p same;
  }

  pub Emits-xadd : (s : String) (f : Dict Bytes) → P (Cmd.xadd s f) → Emits P (xadd s f)
  unfolding xadd
  Emits-xadd s f p = record { at = λ env t. more (Cmd.xadd s f) (env t (Cmd.xadd s f)) p same }

  pub Emits-publish : (s : String) (b : Bytes) → P (Cmd.publish s b) → Emits P (publish s b)
  unfolding publish
  Emits-publish s b p = record {
    at = λ env t. more (Cmd.publish s b) (env t (Cmd.publish s b)) p same;
  }

  pub Emits-redis_get : (k : String) → P (Cmd.redis_get k) → Emits P (redis_get k)
  unfolding redis_get
  Emits-redis_get k p = record {
    at = λ env t. more (Cmd.redis_get k) (env t (Cmd.redis_get k)) p same;
  }

  pub Emits-redis_delete : (k : String) → P (Cmd.redis_delete k) → Emits P (redis_delete k)
  unfolding redis_delete
  Emits-redis_delete k p = record {
    at = λ env t. more (Cmd.redis_delete k) (env t (Cmd.redis_delete k)) p same;
  }

  pub Emits-redis_set :
      (k : String) (v : Bytes) (ttl : ℤ) → P (Cmd.redis_set k v ttl) → Emits P (redis_set k v ttl)
  unfolding redis_set
  Emits-redis_set k v ttl p = record {
    at = λ env t. more (Cmd.redis_set k v ttl) (env t (Cmd.redis_set k v ttl)) p same;
  }

  pub Emits-redis_set_nx :
      (k : String) (v : Bytes) (ttl : ℤ)
      → P (Cmd.redis_set_nx k v ttl)
      → Emits P (redis_set_nx k v ttl)
  unfolding redis_set_nx
  Emits-redis_set_nx k v ttl p = record {
    at = λ env t. more (Cmd.redis_set_nx k v ttl) (env t (Cmd.redis_set_nx k v ttl)) p same;
  }

  pub Emits-xgroup_create :
      (s : String) (g : String) → P (Cmd.xgroup_create s g) → Emits P (xgroup_create s g)
  unfolding xgroup_create
  Emits-xgroup_create s g p = record {
    at = λ env t. more (Cmd.xgroup_create s g) (env t (Cmd.xgroup_create s g)) p same;
  }

  pub Emits-replace_hash :
      (k : String) (f : Dict String) → P (Cmd.replace_hash k f) → Emits P (replace_hash k f)
  unfolding replace_hash
  Emits-replace_hash k f p = record {
    at = λ env t. more (Cmd.replace_hash k f) (env t (Cmd.replace_hash k f)) p same;
  }

  pub Emits-http_get : (url : String) → P (Cmd.http_get url) → Emits P (http_get url)
  unfolding http_get
  Emits-http_get url p = record {
    at = λ env t. more (Cmd.http_get url) (env t (Cmd.http_get url)) p same;
  }

  pub Emits-http_post :
      (url : String) (j : Json) → P (Cmd.http_post url j) → Emits P (http_post url j)
  unfolding http_post
  Emits-http_post url j p = record {
    at = λ env t. more (Cmd.http_post url j) (env t (Cmd.http_post url j)) p same;
  }

  pub Emits-http_notify :
      (url : String) (hs : Dict String) (b : String)
      → P (Cmd.http_notify url hs b)
      → Emits P (http_notify url hs b)
  unfolding http_notify
  Emits-http_notify url hs b p = record {
    at = λ env t. more (Cmd.http_notify url hs b) (env t (Cmd.http_notify url hs b)) p same;
  }

  pub Emits-fs_mkdirs : (p : String) → P (Cmd.fs_mkdirs p) → Emits P (fs_mkdirs p)
  unfolding fs_mkdirs
  Emits-fs_mkdirs p h = record {
    at = λ env t. more (Cmd.fs_mkdirs p) (env t (Cmd.fs_mkdirs p)) h same;
  }

  pub Emits-fs_exists : (p : String) → P (Cmd.fs_exists p) → Emits P (fs_exists p)
  unfolding fs_exists
  Emits-fs_exists p h = record {
    at = λ env t. more (Cmd.fs_exists p) (env t (Cmd.fs_exists p)) h same;
  }

  pub Emits-fs_remove : (p : String) → P (Cmd.fs_remove p) → Emits P (fs_remove p)
  unfolding fs_remove
  Emits-fs_remove p h = record {
    at = λ env t. more (Cmd.fs_remove p) (env t (Cmd.fs_remove p)) h same;
  }

  pub Emits-fs_write : (p : String) (b : Bytes) → P (Cmd.fs_write p b) → Emits P (fs_write p b)
  unfolding fs_write
  Emits-fs_write p b h = record {
    at = λ env t. more (Cmd.fs_write p b) (env t (Cmd.fs_write p b)) h same;
  }

  pub Emits-fs_rename : (p q : String) → P (Cmd.fs_rename p q) → Emits P (fs_rename p q)
  unfolding fs_rename
  Emits-fs_rename p q h = record {
    at = λ env t. more (Cmd.fs_rename p q) (env t (Cmd.fs_rename p q)) h same;
  }

  pub Emits-fs_read : (p : String) → P (Cmd.fs_read p) → Emits P (fs_read p)
  unfolding fs_read
  Emits-fs_read p h = record { at = λ env t. more (Cmd.fs_read p) (env t (Cmd.fs_read p)) h same }

  pub Emits-docker_run : (args : List String) → P (Cmd.docker_run args) → Emits P (docker_run args)
  unfolding docker_run
  Emits-docker_run args h = record {
    at = λ env t. more (Cmd.docker_run args) (env t (Cmd.docker_run args)) h same;
  }

  pub Emits-docker_rm : (name : String) → P (Cmd.docker_rm name) → Emits P (docker_rm name)
  unfolding docker_rm
  Emits-docker_rm name h = record {
    at = λ env t. more (Cmd.docker_rm name) (env t (Cmd.docker_rm name)) h same;
  }

  pub Emits-xadd_maxlen :
      (a : String) (b : Dict Bytes) (c : ℕ)
      → P (Cmd.xadd_maxlen a b c)
      → Emits P (xadd_maxlen a b c)
  unfolding xadd_maxlen
  Emits-xadd_maxlen a b c h = record {
    at = λ env t. more (Cmd.xadd_maxlen a b c) (env t (Cmd.xadd_maxlen a b c)) h same;
  }

  pub Emits-subscribe : (a : String) → P (Cmd.subscribe a) → Emits P (subscribe a)
  unfolding subscribe
  Emits-subscribe a h = record {
    at = λ env t. more (Cmd.subscribe a) (env t (Cmd.subscribe a)) h same;
  }

  pub Emits-unsubscribe : (a : String) → P (Cmd.unsubscribe a) → Emits P (unsubscribe a)
  unfolding unsubscribe
  Emits-unsubscribe a h = record {
    at = λ env t. more (Cmd.unsubscribe a) (env t (Cmd.unsubscribe a)) h same;
  }

  pub Emits-close_pubsub : P Cmd.close_pubsub → Emits P close_pubsub
  unfolding close_pubsub
  Emits-close_pubsub h = record {
    at = λ env t. more Cmd.close_pubsub (env t Cmd.close_pubsub) h same;
  }

  pub Emits-get_message : P Cmd.get_message → Emits P get_message
  unfolding get_message
  Emits-get_message h = record { at = λ env t. more Cmd.get_message (env t Cmd.get_message) h same }

  pub Emits-db_session : P Cmd.db_session → Emits P db_session
  unfolding db_session
  Emits-db_session h = record { at = λ env t. more Cmd.db_session (env t Cmd.db_session) h same }

  pub Emits-db_execute : (a : String) → P (Cmd.db_execute a) → Emits P (db_execute a)
  unfolding db_execute
  Emits-db_execute a h = record {
    at = λ env t. more (Cmd.db_execute a) (env t (Cmd.db_execute a)) h same;
  }

  pub Emits-db_close : P Cmd.db_close → Emits P db_close
  unfolding db_close
  Emits-db_close h = record { at = λ env t. more Cmd.db_close (env t Cmd.db_close) h same }

  pub Emits-signing_key : (a b : String) → P (Cmd.signing_key a b) → Emits P (signing_key a b)
  unfolding signing_key
  Emits-signing_key a b h = record {
    at = λ env t. more (Cmd.signing_key a b) (env t (Cmd.signing_key a b)) h same;
  }

  pub Emits-aclose : (a : String) → P (Cmd.aclose a) → Emits P (aclose a)
  unfolding aclose
  Emits-aclose a h = record { at = λ env t. more (Cmd.aclose a) (env t (Cmd.aclose a)) h same }

pub ruleset emits_calls = (
  emits_rules, Emits-xreadgroup, Emits-xack, Emits-xadd, Emits-publish, Emits-redis_get,
  Emits-redis_delete, Emits-redis_set, Emits-redis_set_nx, Emits-xgroup_create, Emits-replace_hash,
  Emits-http_get, Emits-http_post, Emits-http_notify, Emits-fs_mkdirs, Emits-fs_exists,
  Emits-fs_remove, Emits-fs_write, Emits-fs_rename, Emits-fs_read, Emits-docker_run,
  Emits-docker_rm, Emits-xadd_maxlen, Emits-subscribe, Emits-unsubscribe, Emits-close_pubsub,
  Emits-get_message, Emits-db_session, Emits-db_execute, Emits-db_close, Emits-signing_key,
  Emits-aclose,
)
