-- ===== src/Proxy/Queue.antt =====
-- One direction's bounded queue of frames.
pub mod Accounting
use mathlib.Core.List.{map}
use weregopher.Base.{
  ℕ, ◌+◌, ◌-◌, Option, none, some, List, [], ◌∷◌, ◌++◌, Result, ok, err, ◌>>=◌, ◌>>◌, reject_if,
  ok_or, ltb, leb, if◌then◌else◌, length, max, usize_max, checked_add, checked_sub,
}
use weregopher.Proxy.Limits.{QueueLimits}
use weregopher.Proxy.Message.{Direction, Kind, RequestId, Frame}

pub data ProxyError : Type 0 where
  closed_proxy candidate_limits_mismatch empty_line embedded_line_break line_too_large : ProxyError
  invalid_json top_level_not_object duplicate_object_key json_depth_limit_exceeded : ProxyError
  json_node_limit_exceeded invalid_method invalid_request_id ambiguous_message_shape : ProxyError
  active_request_limit_exceeded request_history_limit_exceeded : ProxyError
  response_before_request_forwarded deadline_overflow non_monotonic_clock : ProxyError
  inconsistent_correlation_state diagnostic_counter_overflow : ProxyError
  queue_message_limit_exceeded queue_byte_limit_exceeded : Direction → ProxyError
  duplicate_request_id reused_request_id : Direction → ProxyError

pub record ProxyQueue : Type 0 where
  pub direction : Direction
  pub limits : QueueLimits
  pub frames : List Frame
  pub bytes : ℕ
  pub peak_messages : ℕ
  pub peak_bytes : ℕ

unfoldable pub new : Direction → QueueLimits → ProxyQueue
new direction limits = record {
  direction = direction;
  limits = limits;
  frames = [];
  bytes = 0;
  peak_messages = 0;
  peak_bytes = 0;
}

unfoldable pub ensure_capacity : ProxyQueue → ℕ → Result ProxyError (Unit {0})
ensure_capacity self bytes = do
  reject_if (leb self.limits.messages (length self.frames))
      (queue_message_limit_exceeded self.direction)
  next ← ok_or (checked_add usize_max self.bytes bytes) (queue_byte_limit_exceeded self.direction)
  reject_if (ltb self.limits.bytes next) (queue_byte_limit_exceeded self.direction)

unfoldable pub push_after_capacity_check : ProxyQueue → Frame → ProxyQueue
push_after_capacity_check self frame =
    let bytes = self.bytes + length frame.json_bytes in
    let frames = self.frames ++ frame ∷ [] in
    record self {
      bytes = bytes;
      frames = frames;
      peak_messages = max self.peak_messages (length frames);
      peak_bytes = max self.peak_bytes bytes;
    }

unfoldable pub pop_front : ProxyQueue → List Frame → Result ProxyError (ProxyQueue × Option Frame)
pop_front self [] = ok (self, none)
pop_front self (front ∷ rest) = do
  remaining_bytes ←
      ok_or (checked_sub self.bytes (length front.json_bytes)) inconsistent_correlation_state
  ok (record self { frames = rest; bytes = remaining_bytes }, some front)

-- A failed `pop` leaves the queue as it was.
unfoldable pub pop : ProxyQueue → Result ProxyError (ProxyQueue × Option Frame)
unfolding pop_front
pop self = pop_front self self.frames

abbrev head : List Frame → Option Frame
head [] = none
head (f ∷ fs) = some f

unfoldable pub front : ProxyQueue → Option Frame
front self = head self.frames

-- The cleared queue, with the numbers of messages and bytes that it dropped.
unfoldable pub clear : ProxyQueue → ProxyQueue × ℕ × ℕ
clear self = (record self { frames = []; bytes = 0 }, length self.frames, self.bytes)
