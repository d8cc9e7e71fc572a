-- ===== src/Streams.antt =====
-- The stream names of shared/streams.py and of the SDK.
use belgrade_os.Base.{String}

abbrev pub inbound_stream : String
inbound_stream = "tasks:inbound"

abbrev pub tool_calls_stream : String
tool_calls_stream = "tasks:tool_calls"

abbrev pub tool_results_stream : String
tool_results_stream = "tasks:tool_results"

abbrev pub untrusted_calls_stream : String
untrusted_calls_stream = "tasks:untrusted_calls"

abbrev pub notifications_stream : String
notifications_stream = "tasks:notifications"

abbrev pub vault_ops_stream : String
vault_ops_stream = "tasks:vault_ops"

abbrev pub schedule_ops_stream : String
schedule_ops_stream = "tasks:schedule_ops"
