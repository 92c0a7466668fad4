-- ===== src/Process/Refinement/Dispatch.antt =====
-- The dispatch of frames as steps.
use weregopher.Base.{
  ℕ, zero, suc, ◌≡◌, refl, ap, ◌∙◌, ◌⊎◌, inl, inr, true, Option, none, some, List, ◌∷◌, ◌++◌, arith,
  Bool-cases, Option-cases, Result, ok, err, Result-cases,
}
use weregopher.Proxy.Message.{client_to_server, Frame}
use weregopher.Proxy.Release.{release}
use weregopher.Proxy.State.{Proxy, queue}
use weregopher.Proxy.Order.{left, release-frames}
use weregopher.Controls.Journal.{Journal, record_forwarded}
use weregopher.Process.Limits.{
  stdin_worker, stdin_capacity, ProcessError, initialization_sequence_violation,
  worker_disconnected, control_error, proxy_error, protocol_failure, transport_failure,
  observation_failure, Progress,
}
use weregopher.Process.State.{InitializationState, frame_command, Session, begin_termination}
use weregopher.Process.Initialization.{dispatched_after, observe_dispatched_frame}
use weregopher.Process.Client.{record_release}
use weregopher.Process.Dispatch.{
  Sending, sent, channel_full, channel_disconnected, may_dispatch, count_dispatched, took,
  send_frame, hand_over, dispatch_loop, dispatch_client_frames,
}
use weregopher.Process.Phase.{
  course_of, phase_of, IsAlive, fails_protocol, fails_transport, fails_observation, dispatch,
}
use weregopher.Process.Refinement.{
  Reach, stays, goes, Reach-trans, Reach-▷, ends, if-Reach, if_known-Reach,
}
use weregopher.Proxy.Queue.{ProxyError}

count_dispatched-phase :
    (s : Session) (p : Progress) → phase_of s ≡ phase_of (count_dispatched s p).0
unfolding count_dispatched
count_dispatched-phase s p = ground arith

pub record_release_cases :
    (sha256 : List ℕ → List ℕ) (t : Session) (f : Frame)
    → ((events : Journal) × (record_release sha256 t f ≡ (record t { events = events }, ok tt)))
      ⊎ ((events : Journal) × (x : ProcessError) × (record_release sha256 t f
            ≡ (begin_termination (record t { events = events }) observation_failure, err x)))
unfolding record_release
record_release_cases sha256 t f =
    let r = record_forwarded sha256 t.events f.observation in
    elim (Result-cases r.1) [
      | inr (x, bad) ↦ inr (r.0, control_error x, rw (bad, record_release) refl)
      | inl (u, good) ↦ inl (r.0, rw (good, record_release) refl)
    ]

pub observe_dispatched_cases :
    (t : Session) (f : Frame)
    → ((next : InitializationState) × (dispatched_after t.initialization f.observation ≡ some next)
        × (observe_dispatched_frame t f ≡ (record t { initialization = next }, ok tt)))
      ⊎ (observe_dispatched_frame t f
          ≡ (begin_termination t protocol_failure, err initialization_sequence_violation))
unfolding observe_dispatched_frame
observe_dispatched_cases t f =
    elim (Option-cases (dispatched_after t.initialization f.observation)) [
      | inl bad ↦ inr (rw (bad, observe_dispatched_frame) refl)
      | inr (next, good) ↦ inl (next, good, rw (good, observe_dispatched_frame) refl)
    ]

module _ (sha256 : List ℕ → List ℕ) (s : Session) (q : Proxy) (f : Frame)
    (waits : (s.proxy.to_server).frames ≡ f ∷ (q.to_server).frames)
    (alive : IsAlive (course_of s)) where
  send_frame-Reach :
      (sending : Sending) (events : Journal) (next : InitializationState) (p : Progress)
      → s.writer_tx ≡ true
      → dispatched_after s.initialization f.observation ≡ some next
      → Reach s
          (send_frame sending (record s { proxy = q; events = events; initialization = next }) p f)
  send_frame-Reach sent events next p held good =
      let v = record s { proxy = q; events = events; initialization = next } in
      let w = took v (frame_command f) in
      let handed : Reach {A = Progress} s (w, ok p) =
        goes s w (ok p) alive (dispatch f (q.to_server).frames next held waits good) in
      Reach-trans s w (ok p) (count_dispatched w p) handed (
        stays w (count_dispatched w p).0 (count_dispatched w p).1 alive
          (count_dispatched-phase w p))
  send_frame-Reach channel_full events next p held good =
      ends s (record s { proxy = q; events = events; initialization = next }) transport_failure
        (err (worker_disconnected stdin_capacity)) fails_transport alive refl
  send_frame-Reach channel_disconnected events next p held good =
      ends s (record s { proxy = q; events = events; initialization = next }) transport_failure
        (err (worker_disconnected stdin_worker)) fails_transport alive refl

  hand_over-Reach :
      (sending : Sending) (p : Progress)
      → Reach s (hand_over sha256 sending (record s { proxy = q }) p f)
  unfolding hand_over
  hand_over-Reach sending p = elim (record_release_cases sha256 (record s { proxy = q }) f) [
    | inr (events, x, bad) ↦
        rw (bad, hand_over)
          (ends s (record s { proxy = q; events = events }) observation_failure (err x)
            fails_observation alive refl)
    | inl (events, good) ↦
        elim (observe_dispatched_cases (record s { proxy = q; events = events }) f) [
          | inr bad ↦
              rw (good, bad, hand_over)
                (ends s (record s { proxy = q; events = events }) protocol_failure
                  (err initialization_sequence_violation) fails_protocol alive refl)
          | inl (next, in_order, seen) ↦
              let v = record s { proxy = q; events = events; initialization = next } in
              rw (good, seen, hand_over)
                (if_known-Reach s s.writer_tx (send_frame sending v p f)
                  (begin_termination v transport_failure, err (worker_disconnected stdin_worker))
                  (λ held. send_frame-Reach sending events next p held in_order)
                  (λ lost.
                    ends s v transport_failure (err (worker_disconnected stdin_worker))
                      fails_transport alive refl))
        ]
  ]

-- What a release toward the process leaves of what waits for it.
release-waiting :
    (instant_max : ℕ) (p : Proxy) (now : ℕ) (o : Result ProxyError (Option Frame))
    → (release instant_max p client_to_server now).1 ≡ o
    → (p.to_server).frames
      ≡ left client_to_server client_to_server o
        ++ ((release instant_max p client_to_server now).0.to_server).frames
unfolding queue
release-waiting instant_max p now o e =
    release-frames instant_max p client_to_server now client_to_server ∙ rw e refl

module _ (sha256 : List ℕ → List ℕ) (instant_max : ℕ) (sendings : ℕ → Sending) where
  dispatch_loop-Reach :
      (fuel : ℕ) (s : Session) (now : ℕ) (p : Progress)
      → IsAlive (course_of s)
      → Reach s (dispatch_loop sha256 instant_max sendings fuel s now p)
  unfolding dispatch_loop
  dispatch_loop-Reach zero s now p alive = stays s s (ok p) alive refl
  dispatch_loop-Reach (suc fuel) s now p alive =
      let r = release instant_max s.proxy client_to_server now in
      let t = record s { proxy = r.0 } in
      let sending = sendings p.dispatched_client_frames in
      elim (Bool-cases (may_dispatch s p)) [
        | inr done ↦ rw (done, dispatch_loop) (stays s s (ok p) alive refl)
        | inl free ↦ elim (Result-cases r.1) [
          | inr (x, bad) ↦
              rw (free, bad, dispatch_loop)
                (stays s t (err (proxy_error x)) alive (
                  ap (λ fs. record (phase_of s) { waiting = fs })
                    (release-waiting instant_max s.proxy now (err x) bad)))
          | inl (none, good) ↦
              rw (free, good, dispatch_loop)
                (stays s t (ok p) alive (
                  ap (λ fs. record (phase_of s) { waiting = fs })
                    (release-waiting instant_max s.proxy now (ok none) good)))
          | inl (some f, good) ↦
              rw (free, good, dispatch_loop)
                (Reach-▷ s (hand_over sha256 sending t p f) _
                  (hand_over-Reach sha256 s r.0 f
                    (release-waiting instant_max s.proxy now (ok (some f)) good) alive sending p)
                  (λ u q e still. dispatch_loop-Reach fuel u now q still))
        ]
      ]

  pub dispatch_client_frames-Reach :
      (s : Session) (now : ℕ) (p : Progress)
      → IsAlive (course_of s)
      → Reach s (dispatch_client_frames sha256 instant_max sendings s now p)
  unfolding dispatch_client_frames
  dispatch_client_frames-Reach s now p alive =
      if-Reach s _ (s, ok p) _ (stays s s (ok p) alive refl)
        (dispatch_loop-Reach s.limits.poll_events s now p alive)
