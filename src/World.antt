-- ===== src/World.antt =====
-- What a service asks of the outside: Redis, HTTP, the model provider, clocks. The outside is an
-- arbitrary function of the history of calls, so a theorem about a program holds whatever Redis
-- and the network answer, failures included. A program returns a value or raises an exception.

use belgrade_os.Base.{ℕ, String, Bool, Option, List, ◌≡◌, refl, ◌⊎◌, inl, inr}
use belgrade_os.Base.Dict.{Dict}
use belgrade_os.Base.Text.{Bytes}
use belgrade_os.Base.Int.{ℤ}
use belgrade_os.Wire.{Json}

-- The class of an exception, as far as a handler tells classes apart.
pub data Fault : Type 0 where
  value_error json_decode_error unicode_decode_error os_error runtime_error : Fault
  timeout_error output_validation_error connection_error redis_timeout_error : Fault
  response_error key_error type_error attribute_error job_lookup_error other_error : Fault
  inference_error inference_timeout_error jwt_error : Fault

pub record Exn : Type 0 where
  pub fault : Fault
  pub text : String

pub data Result {ℓ} (A : Type ℓ) : Type ℓ where
  ok : A → Result A
  raised : Exn → Result A

pub Result-cases {ℓ} :
    {A : Type ℓ} (r : Result A) → ((a : A) × (r ≡ ok a)) ⊎ ((x : Exn) × (r ≡ raised x))
Result-cases (ok a) = inl (a, refl)
Result-cases (raised x) = inr (x, refl)

-- An entry of a stream, as XREADGROUP delivers it.
pub record Message : Type 0 where
  pub id : String
  pub fields : Dict Bytes

-- A message of the conversation with the model: a text, or the results of tools.
pub record ToolOutput : Type 0 where
  pub tool_use_id : String
  pub content : String

pub data Content : Type 0 where
  text : String → Content
  tool_results : List ToolOutput → Content

pub record ChatMessage : Type 0 where
  pub role : String
  pub content : Content

pub record ToolUse : Type 0 where
  pub call_id : String
  pub name : String
  pub input : Json

-- What `provider.generate` yields, up to its end or to the exception that ends it.
pub data Stream : Type 0 where
  text_chunk : String → Stream → Stream
  stream_done : String → List ToolUse → Stream → Stream
  finished : Stream
  broken : Exn → Stream

-- How a container that was started ends within the time limit: its code and what it wrote to stderr;
-- or the limit passes.
pub data ContainerEnd : Type 0 where
  exited : ℤ → Bytes → ContainerEnd
  timed_out : ContainerEnd

pub data Cmd : Type 0 where
  -- stream, group, consumer; stream, group, id; stream, fields
  xreadgroup : String → String → String → Cmd
  xack : String → String → String → Cmd
  xadd : String → Dict Bytes → Cmd
  publish : String → Bytes → Cmd
  -- stream, fields, the length to which old entries are cut off
  xadd_maxlen : String → Dict Bytes → ℕ → Cmd
  -- the subscriber of a channel; `get_message` times out, or gives a message or nothing
  subscribe unsubscribe : String → Cmd
  get_message close_pubsub : Cmd
  redis_get redis_delete : String → Cmd
  -- key, value, seconds to live
  redis_set : String → Bytes → ℤ → Cmd
  redis_set_nx : String → Bytes → ℤ → Cmd
  xgroup_create : String → String → Cmd
  -- one transaction: DEL key, then HSET key with the fields unless there are none
  replace_hash : String → Dict String → Cmd
  http_get : String → Cmd
  http_post : String → Json → Cmd
  -- url, headers, content
  http_notify : String → Dict String → String → Cmd
  -- files: create the folders of a path, write a file, move one onto another, test and remove one
  fs_mkdirs fs_exists fs_remove : String → Cmd
  fs_write : String → Bytes → Cmd
  fs_rename : String → String → Cmd
  fs_read : String → Cmd
  -- `shutil.rmtree` with ignore_errors
  rmtree : String → Cmd
  docker_run : List String → Cmd
  docker_rm : String → Cmd
  -- the database session of an app's context
  db_session db_close : Cmd
  db_execute : String → Cmd
  -- the key of the JWKS at a URL for a token; the end of a client
  signing_key : String → String → Cmd
  aclose : String → Cmd
  generate : List ChatMessage → List Json → Cmd
  time_ms monotonic_ns uuid4 : Cmd
  -- the local time under this format
  strftime : String → Cmd
  sleep : ℕ → Cmd

-- Every reader asks XREADGROUP for one entry (`count=1`), so that it delivers an entry or, when the
-- block time is over, nothing. An HTTP answer is the decoded body; a failed connection, an error
-- status and a body that is no JSON raise.
abbrev pub Reply : Cmd → Type 0
Reply (xreadgroup _ _ _) = Result (Option Message)
Reply (xack _ _ _) = Result Unit
Reply (xadd _ _) = Result Unit
Reply (publish _ _) = Result Unit
Reply (redis_get _) = Result (Option Bytes)
Reply (redis_delete _) = Result Unit
Reply (redis_set _ _ _) = Result Unit
Reply (redis_set_nx _ _ _) = Result Bool
Reply (xgroup_create _ _) = Result Unit
Reply (replace_hash _ _) = Result Unit
Reply (http_get _) = Result Json
Reply (http_post _ _) = Result Json
Reply (http_notify _ _ _) = Result Unit
Reply (fs_mkdirs _) = Result Unit
Reply (fs_exists _) = Result Bool
Reply (fs_remove _) = Result Unit
Reply (fs_write _ _) = Result Unit
Reply (fs_rename _ _) = Result Unit
Reply (fs_read _) = Result Bytes
Reply (rmtree _) = Unit
Reply (docker_run _) = Result ContainerEnd
Reply (docker_rm _) = Result Unit
Reply (xadd_maxlen _ _ _) = Result Unit
Reply (subscribe _) = Result Unit
Reply (unsubscribe _) = Result Unit
Reply close_pubsub = Result Unit
Reply get_message = Result (Option Bytes)
Reply db_session = Result Unit
Reply (db_execute _) = Result Unit
Reply db_close = Result Unit
Reply (signing_key _ _) = Result String
Reply (aclose _) = Result Unit
Reply (generate _ _) = Stream
Reply time_ms = ℕ
Reply monotonic_ns = ℕ
Reply uuid4 = String
Reply (strftime _) = String
Reply (sleep _) = Unit
