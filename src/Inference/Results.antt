-- ===== src/Inference/Results.antt =====
-- services/inference/redis_client.py: the readers of the task and result streams.
use belgrade_os.Base.{
  ℕ, zero, suc, String, ◌<>◌, Bool, false, Option, none, some, [], ◌∷◌, if◌then◌else◌,
}
use belgrade_os.Base.Dict.{lookup}
use belgrade_os.Base.Text.{Bytes, encode, bytes_eq}
use belgrade_os.World.{Exn, Message, key_error}
use belgrade_os.Prog.{Prog, pure, or_raise, ◌>>=◌, ◌>>◌}
use belgrade_os.Calls.{xreadgroup, xack, xadd, publish}
use belgrade_os.Streams.{
  inbound_stream, tool_calls_stream, tool_results_stream, untrusted_calls_stream,
}

abbrev pub max_tool_result_iterations : ℕ
max_tool_result_iterations = 10

abbrev pub missing_data : Exn
missing_data = record { fault = key_error; text = "b'data'" }

-- `fields[b"data"]`
unfoldable pub data_of : Message → Prog (String × Bytes)
unfolding lookup
data_of m = do payload ← or_raise missing_data (lookup "data" m.fields); pure (m.id, payload)

unfoldable pub task_of : Option Message → Prog (Option (String × Bytes))
task_of none = pure none
task_of (some m) = do found ← data_of m; pure (some found)

unfoldable pub read_task : String → String → Prog (Option (String × Bytes))
unfolding task_of
read_task group consumer_id = do found ← xreadgroup inbound_stream group consumer_id; task_of found

-- `fields.get(b"task_id") == expected_task_id`
unfoldable pub is_for : String → Message → Bool
unfolding lookup encode bytes_eq
is_for task_id m = elim (lookup "task_id" m.fields) [
  | none ↦ false
  | some v ↦ bytes_eq v (encode task_id)
]

-- A turn of the loop in read_tool_result, from what was read; `rest` is the turns after it.
unfoldable pub match_entry :
    String
    → String
    → Prog (Option (String × Bytes))
    → Option Message
    → Prog (Option (String × Bytes))
match_entry group task_id rest none = pure none
match_entry group task_id rest (some m) =
    if is_for task_id m
    then (do found ← data_of m; pure (some found))
    else (do xack tool_results_stream group m.id; rest)

unfoldable pub read_matching : ℕ → String → String → String → Prog (Option (String × Bytes))
read_matching zero group consumer_id task_id = pure none
read_matching (suc turns) group consumer_id task_id = do
  found ← xreadgroup tool_results_stream group consumer_id
  match_entry group task_id (read_matching turns group consumer_id task_id) found

unfoldable pub read_tool_result : String → String → String → Prog (Option (String × Bytes))
read_tool_result = read_matching max_tool_result_iterations

unfoldable pub push_tool_call : Bytes → Prog Unit
push_tool_call proto_bytes = xadd tool_calls_stream (("data", proto_bytes) ∷ [])

unfoldable pub push_untrusted_tool_call : Bytes → Prog Unit
push_untrusted_tool_call proto_bytes = xadd untrusted_calls_stream (("data", proto_bytes) ∷ [])

unfoldable pub publish_thought : String → Bytes → Prog Unit
publish_thought task_id proto_bytes = publish ("sse:" <> task_id) proto_bytes
