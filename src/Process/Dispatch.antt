-- ===== src/Process/Dispatch.antt =====
-- Frames on their way to the process.
use weregopher.Base.{
  ℕ, zero, suc, Bool, ◌&&◌, ◌||◌, not, none, some, List, [], ◌∷◌, ◌++◌, ltb, if◌then◌else◌, ok, err,
  u64_max, usize_max, checked_add,
}
use weregopher.Proxy.Message.{client_to_server, Frame}
use weregopher.Proxy.Release.{release}
use weregopher.Process.Limits.{
  stdin_worker, stdin_capacity, ProcessError, worker_disconnected, diagnostic_counter_overflow,
  proxy_error, transport_failure, Progress,
}
use weregopher.Process.State.{
  WriterCommand, frame_command, Session, Step, ◌▷◌, is_terminating, is_exited, begin_termination,
}
use weregopher.Process.Initialization.{observe_dispatched_frame}
use weregopher.Process.Client.{record_release}

-- What `try_send` of the writer's channel answers.
pub data Sending : Type 0 where
  sent channel_full channel_disconnected : Sending

abbrev pub may_dispatch : Session → Progress → Bool
may_dispatch self progress =
    ltb self.writer_outstanding self.limits.io_queue_messages
    && ltb progress.dispatched_client_frames self.limits.poll_events

-- A frame that its channel took is counted, each counter written before the next is checked.
unfoldable pub count_dispatched : Session → Progress → Step Progress
count_dispatched self progress =
    let overflow : ProcessError = diagnostic_counter_overflow in
    elim (checked_add usize_max self.writer_outstanding 1) [
      | none ↦ (self, err overflow)
      | some outstanding ↦
          let more = record self { writer_outstanding = outstanding } in
          elim (checked_add u64_max self.dispatched_client_frames 1) [
            | none ↦ (more, err overflow)
            | some frames ↦
                let counted = record more { dispatched_client_frames = frames } in
                elim (checked_add usize_max progress.dispatched_client_frames 1) [
                  | none ↦ (counted, err overflow)
                  | some n ↦ (counted, ok (record progress { dispatched_client_frames = n }))
                ]
          ]
    ]

abbrev pub took : Session → WriterCommand → Session
took self command = record self { writer_commands = self.writer_commands ++ command ∷ [] }

abbrev pub send_frame : Sending → Session → Progress → Frame → Step Progress
send_frame sent self progress frame = count_dispatched (took self (frame_command frame)) progress
send_frame channel_full self progress frame =
    (begin_termination self transport_failure, err (worker_disconnected stdin_capacity))
send_frame channel_disconnected self progress frame =
    (begin_termination self transport_failure, err (worker_disconnected stdin_worker))

-- The frame is recorded, observed, and handed to the writer that is still held.
unfoldable pub hand_over : (List ℕ → List ℕ) → Sending → Session → Progress → Frame → Step Progress
unfolding record_release observe_dispatched_frame count_dispatched begin_termination
hand_over sha256 sending self progress frame =
    (record_release sha256 self frame ▷ λ recorded unit. observe_dispatched_frame recorded frame)
    ▷ λ observed unit.
        if observed.writer_tx
        then send_frame sending observed progress frame
        else (begin_termination observed transport_failure, err (worker_disconnected stdin_worker))

module _ (sha256 : List ℕ → List ℕ) (instant_max : ℕ) (sendings : ℕ → Sending) where
  -- The loop, on fuel. The channel answers by the number of frames that this poll dispatched.
  unfoldable pub dispatch_loop : ℕ → Session → ℕ → Progress → Step Progress
  unfolding release hand_over
  dispatch_loop zero self now progress = (self, ok progress)
  dispatch_loop (suc fuel) self now progress =
      if not (may_dispatch self progress)
      then (self, ok progress)
      else let (proxy, released) = release instant_max self.proxy client_to_server now in
        let after = record self { proxy = proxy } in
        elim released [
          | err x ↦ (after, err (proxy_error x))
          | ok none ↦ (after, ok progress)
          | ok (some frame) ↦
              hand_over sha256 (sendings progress.dispatched_client_frames) after progress frame
              ▷ λ s p. dispatch_loop fuel s now p
        ]

  unfoldable pub dispatch_client_frames : Session → ℕ → Progress → Step Progress
  unfolding dispatch_loop
  dispatch_client_frames self now progress =
      if is_terminating self.lifecycle || is_exited self.lifecycle || self.writer_close_requested
      then (self, ok progress)
      else dispatch_loop self.limits.poll_events self now progress
