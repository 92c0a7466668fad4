-- ===== src/Proxy/Limits.antt =====
-- The proxy's resource limits. A `Duration` is a number of nanoseconds.
use weregopher.Base.{
  ℕ, ◌*◌, Bool, ◌&&◌, ◌||◌, Result, ok, err, ◌>>◌, reject_if, ltb, ◌==◌, if◌then◌else◌,
}

pub data LimitError : Type 0 where
  invalid_queue_limits invalid_line_limit invalid_json_limits : LimitError
  invalid_active_request_limit invalid_request_history_limit invalid_request_timeout : LimitError

abbrev absolute_max_line_bytes : ℕ
absolute_max_line_bytes = 16 * 1024 * 1024

abbrev pub absolute_max_queue_messages : ℕ
absolute_max_queue_messages = 4096

abbrev pub absolute_max_queue_bytes : ℕ
absolute_max_queue_bytes = 64 * 1024 * 1024

abbrev absolute_max_json_depth : ℕ
absolute_max_json_depth = 128

abbrev absolute_max_json_nodes : ℕ
absolute_max_json_nodes = 1048576

abbrev absolute_max_active_requests : ℕ
absolute_max_active_requests = 4096

abbrev pub absolute_max_request_history : ℕ
absolute_max_request_history = 1048576

-- Twenty-four hours.
abbrev absolute_max_request_timeout : ℕ
absolute_max_request_timeout = 24 * 3600 * 1000000000

pub record QueueLimits : Type 0 where
  pub messages : ℕ
  pub bytes : ℕ

unfoldable pub new_queue_limits : ℕ → ℕ → Result LimitError QueueLimits
new_queue_limits messages bytes =
    if messages == 0
      || ltb absolute_max_queue_messages messages
      || bytes == 0
      || ltb absolute_max_queue_bytes bytes
    then err invalid_queue_limits
    else ok (record { messages = messages; bytes = bytes })

pub record JsonLimits : Type 0 where
  pub depth : ℕ
  pub nodes : ℕ

unfoldable pub new_json_limits : ℕ → ℕ → Result LimitError JsonLimits
new_json_limits depth nodes =
    if depth == 0
      || ltb absolute_max_json_depth depth
      || nodes == 0
      || ltb absolute_max_json_nodes nodes
    then err invalid_json_limits
    else ok (record { depth = depth; nodes = nodes })

pub record ProxyLimits : Type 0 where
  pub line_bytes : ℕ
  pub to_server : QueueLimits
  pub to_client : QueueLimits
  pub json : JsonLimits
  pub active_requests : ℕ
  pub request_history : ℕ
  pub request_timeout : ℕ

unfoldable pub new_limits : ProxyLimits → Result LimitError ProxyLimits
new_limits l = do
  reject_if (l.line_bytes == 0 || ltb absolute_max_line_bytes l.line_bytes) invalid_line_limit
  reject_if (l.active_requests == 0 || ltb absolute_max_active_requests l.active_requests)
      invalid_active_request_limit
  reject_if
      (ltb l.request_history l.active_requests
        || ltb absolute_max_request_history l.request_history)
      invalid_request_history_limit
  reject_if (l.request_timeout == 0 || ltb absolute_max_request_timeout l.request_timeout)
      invalid_request_timeout
  ok l

unfoldable pub initial : ProxyLimits
initial = record {
  line_bytes = 1024 * 1024;
  to_server = record { messages = 256; bytes = 8 * 1024 * 1024 };
  to_client = record { messages = 256; bytes = 8 * 1024 * 1024 };
  json = record { depth = 64; nodes = 65536 };
  active_requests = 1024;
  request_history = 65536;
  request_timeout = 5 * 60 * 1000000000;
}

-- The derived equality.
unfoldable pub limits_eq : ProxyLimits → ProxyLimits → Bool
limits_eq a b =
    a.line_bytes == b.line_bytes
    && a.to_server.messages == b.to_server.messages
    && a.to_server.bytes == b.to_server.bytes
    && a.to_client.messages == b.to_client.messages
    && a.to_client.bytes == b.to_client.bytes
    && a.json.depth == b.json.depth
    && a.json.nodes == b.json.nodes
    && a.active_requests == b.active_requests
    && a.request_history == b.request_history
    && a.request_timeout == b.request_timeout
