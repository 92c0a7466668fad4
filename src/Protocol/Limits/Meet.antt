-- ===== src/Protocol/Limits/Meet.antt =====
-- Negotiated limits are the greatest that both endpoints allow.
use weregopher.Base.{◌≡◌, ◌≤◌, ◌<◌, ◌↔◌, ok, arith}
use weregopher.Protocol.Limits.{ProtocolLimits, validate, lower, negotiate}

pub record IsPositive (l : ProtocolLimits) : Type 0 where
  pub frame : 0 < l.max_frame_bytes
  pub nodes : 0 < l.max_graph_nodes
  pub depth : 0 < l.max_object_depth
  pub strings : 0 < l.max_string_bytes
  pub inline_buffers : 0 < l.max_inline_buffer_bytes
  pub pending : 0 < l.max_pending_requests
  pub handles : 0 < l.max_remote_handles
  pub streams : 0 < l.max_open_streams
  pub listeners : 0 < l.max_listener_count

-- `a` allows no more than `b` in any dimension.
pub record Within (a b : ProtocolLimits) : Type 0 where
  pub frame : a.max_frame_bytes ≤ b.max_frame_bytes
  pub nodes : a.max_graph_nodes ≤ b.max_graph_nodes
  pub depth : a.max_object_depth ≤ b.max_object_depth
  pub strings : a.max_string_bytes ≤ b.max_string_bytes
  pub inline_buffers : a.max_inline_buffer_bytes ≤ b.max_inline_buffer_bytes
  pub pending : a.max_pending_requests ≤ b.max_pending_requests
  pub handles : a.max_remote_handles ≤ b.max_remote_handles
  pub streams : a.max_open_streams ≤ b.max_open_streams
  pub listeners : a.max_listener_count ≤ b.max_listener_count

pub validate-IsPositive : (l : ProtocolLimits) → validate l ≡ ok tt → IsPositive l
unfolding validate
validate-IsPositive l h = ground arith

pub IsPositive-validate : (l : ProtocolLimits) → IsPositive l → validate l ≡ ok tt
unfolding validate
IsPositive-validate l p = ground arith

pub lower-Within_left : (a b : ProtocolLimits) → Within (lower a b) a
unfolding lower
lower-Within_left a b = omega arith

pub lower-Within_right : (a b : ProtocolLimits) → Within (lower a b) b
unfolding lower
lower-Within_right a b = omega arith

pub lower-IsPositive : (a b : ProtocolLimits) → IsPositive a → IsPositive b → IsPositive (lower a b)
unfolding lower
lower-IsPositive a b p q = omega arith

pub lower-greatest : (a b c : ProtocolLimits) → Within c a → Within c b → Within c (lower a b)
unfolding lower
lower-greatest a b c p q = omega arith

pub lower_assoc_self : (a b : ProtocolLimits) → lower (lower a b) a ≡ lower a b
unfolding lower
lower_assoc_self a b = ground arith

pub negotiate-lower :
    (a b : ProtocolLimits) {m : ProtocolLimits}
    → negotiate a b ≡ ok m
    → (m ≡ lower a b) × IsPositive a × IsPositive b
unfolding negotiate
negotiate-lower a b h = ground (arith, validate-IsPositive a, validate-IsPositive b)

pub IsPositive-negotiate :
    (a b : ProtocolLimits) → IsPositive a → IsPositive b → negotiate a b ≡ ok (lower a b)
unfolding negotiate
IsPositive-negotiate a b p q = ground (arith, IsPositive-validate a p, IsPositive-validate b q)

-- Limits negotiate exactly when both sides are free of zeros.
pub negotiate-total :
    (a b : ProtocolLimits)
    → (IsPositive a × IsPositive b) ↔ ((m : ProtocolLimits) × (negotiate a b ≡ ok m))
negotiate-total a b = (
  λ p. (lower a b, IsPositive-negotiate a b p.0 p.1),
  λ r. let (e, p, q) = negotiate-lower a b r.1 in (p, q),
)

-- Negotiated limits are free of zeros, allow no more than either side, and allow at least what any
-- limits allow that are within both sides.
pub negotiate-greatest :
    (a b c : ProtocolLimits) {m : ProtocolLimits}
    → negotiate a b ≡ ok m
    → Within c a
    → Within c b
    → IsPositive m × Within m a × Within m b × Within c m
negotiate-greatest a b c h p q =
    let (e, u, v) = negotiate-lower a b h in
    rw e (
      lower-IsPositive a b u v,
      lower-Within_left a b,
      lower-Within_right a b,
      lower-greatest a b c p q,
    )
