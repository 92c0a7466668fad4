-- ===== src/Proxy/Queue/Accounting.antt =====
-- A queue knows the bytes that it holds, and stays within its limits.
use weregopher.Base.{ℕ, ◌+◌, ◌≡◌, ◌≤◌, some, List, [], ◌∷◌, ◌++◌, ok, arith, length, length-append}
use weregopher.Proxy.Limits.{QueueLimits}
use weregopher.Proxy.Message.{Direction, Frame}
use weregopher.Proxy.Queue.{ProxyQueue, new, ensure_capacity, push_after_capacity_check, pop, clear}

pub total_bytes : List Frame → ℕ
total_bytes [] = 0
total_bytes (f ∷ fs) = length f.json_bytes + total_bytes fs

pub record QueueInv (q : ProxyQueue) : Type 0 where
  pub counted : q.bytes ≡ total_bytes q.frames
  pub messages_within : length q.frames ≤ q.limits.messages
  pub bytes_within : q.bytes ≤ q.limits.bytes
  pub messages_peak : length q.frames ≤ q.peak_messages
  pub bytes_peak : q.bytes ≤ q.peak_bytes
  pub peak_messages_within : q.peak_messages ≤ q.limits.messages
  pub peak_bytes_within : q.peak_bytes ≤ q.limits.bytes

total_bytes-append : (xs ys : List Frame) → total_bytes (xs ++ ys) ≡ total_bytes xs + total_bytes ys
unfolding total_bytes
total_bytes-append [] ys = omega arith
total_bytes-append (x ∷ xs) ys = omega (arith, total_bytes-append xs ys)

pub new-QueueInv : (d : Direction) (l : QueueLimits) → QueueInv (new d l)
unfolding new total_bytes
new-QueueInv d l = omega arith

pub push-QueueInv :
    (q : ProxyQueue) (f : Frame)
    → QueueInv q
    → ensure_capacity q (length f.json_bytes) ≡ ok tt
    → QueueInv (push_after_capacity_check q f)
unfolding push_after_capacity_check ensure_capacity total_bytes
push-QueueInv q f v e =
    ground (arith, total_bytes-append q.frames (f ∷ []), length-append q.frames (f ∷ []))

-- The queue after its front was taken.
abbrev pub rest_of : ProxyQueue → List Frame → ProxyQueue
rest_of q rest = record q { frames = rest; bytes = total_bytes rest }

pub pop-cons :
    (q : ProxyQueue) (f : Frame) (rest : List Frame)
    → QueueInv q
    → q.frames ≡ f ∷ rest
    → pop q ≡ ok (rest_of q rest, some f)
unfolding pop total_bytes
pop-cons q f rest v e = rw (e, pop) (ground (arith, v.counted))

pub rest_of-QueueInv :
    (q : ProxyQueue) (f : Frame) (rest : List Frame)
    → QueueInv q
    → q.frames ≡ f ∷ rest
    → QueueInv (rest_of q rest)
unfolding total_bytes
rest_of-QueueInv q f rest v e = ground arith

pub clear-QueueInv : (q : ProxyQueue) → QueueInv q → QueueInv (clear q).0
unfolding clear total_bytes
clear-QueueInv q v = omega arith
