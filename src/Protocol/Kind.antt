-- ===== src/Protocol/Kind.antt =====
-- Message kinds and their wire tags: crates/weregopher-domain/src/protocol.rs.
use weregopher.Base.{ℕ, ◌≡◌, refl, Result, ok, err, arith, ◌==◌, if◌then◌else◌}

pub data MessageKind : Type 0 where
  hello welcome reject load_application application_ready application_exit call call_result
        call_error cancel event subscribe unsubscribe ipc_send ipc_invoke ipc_reply ipc_error
        stream_open stream_window stream_data stream_end stream_error retain_handle release_handle
        shared_buffer_offer shared_buffer_accept shared_buffer_release heartbeat diagnostics
        shutdown :
      MessageKind

pub data FrameHeaderError : Type 0 where
  invalid_length : ℕ → FrameHeaderError
  reserved_bits_set : FrameHeaderError
  unknown_flags : ℕ → FrameHeaderError
  unknown_message_kind : ℕ → FrameHeaderError

-- `kind as u8`.
unfoldable pub tag : MessageKind → ℕ
tag hello = 1
tag welcome = 2
tag reject = 3
tag load_application = 4
tag application_ready = 5
tag application_exit = 6
tag call = 7
tag call_result = 8
tag call_error = 9
tag cancel = 10
tag event = 11
tag subscribe = 12
tag unsubscribe = 13
tag ipc_send = 14
tag ipc_invoke = 15
tag ipc_reply = 16
tag ipc_error = 17
tag stream_open = 18
tag stream_window = 19
tag stream_data = 20
tag stream_end = 21
tag stream_error = 22
tag retain_handle = 23
tag release_handle = 24
tag shared_buffer_offer = 25
tag shared_buffer_accept = 26
tag shared_buffer_release = 27
tag heartbeat = 28
tag diagnostics = 29
tag shutdown = 30

unfoldable pub try_from : ℕ → Result FrameHeaderError MessageKind
try_from n =
    if n == 1
    then ok hello
    else if n == 2
    then ok welcome
    else if n == 3
    then ok reject
    else if n == 4
    then ok load_application
    else if n == 5
    then ok application_ready
    else if n == 6
    then ok application_exit
    else if n == 7
    then ok call
    else if n == 8
    then ok call_result
    else if n == 9
    then ok call_error
    else if n == 10
    then ok cancel
    else if n == 11
    then ok event
    else if n == 12
    then ok subscribe
    else if n == 13
    then ok unsubscribe
    else if n == 14
    then ok ipc_send
    else if n == 15
    then ok ipc_invoke
    else if n == 16
    then ok ipc_reply
    else if n == 17
    then ok ipc_error
    else if n == 18
    then ok stream_open
    else if n == 19
    then ok stream_window
    else if n == 20
    then ok stream_data
    else if n == 21
    then ok stream_end
    else if n == 22
    then ok stream_error
    else if n == 23
    then ok retain_handle
    else if n == 24
    then ok release_handle
    else if n == 25
    then ok shared_buffer_offer
    else if n == 26
    then ok shared_buffer_accept
    else if n == 27
    then ok shared_buffer_release
    else if n == 28
    then ok heartbeat
    else if n == 29
    then ok diagnostics
    else if n == 30
    then ok shutdown
    else err (unknown_message_kind n)

pub try_from-tag : (k : MessageKind) → try_from (tag k) ≡ ok k
unfolding try_from tag
try_from-tag hello = refl
try_from-tag _ = refl

pub tag-try_from : (n : ℕ) (k : MessageKind) → try_from n ≡ ok k → tag k ≡ n
unfolding try_from tag
tag-try_from n k h = ground arith

pub MessageKind-discrete : Discrete MessageKind
MessageKind-discrete = hlevel
