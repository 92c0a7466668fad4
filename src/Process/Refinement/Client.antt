-- ===== src/Process/Refinement/Client.antt =====
-- Candidates and deliveries as steps.
use mathlib.Core.Path.{subst}
use mathlib.Core.List.{append-nil}
use weregopher.Base.{
  ℕ, ◌≡◌, refl, sym, ap, ◌∙◌, inl, inr, Bool, ◌&&◌, Option, none, some, List, [], ◌∷◌, ◌++◌, arith,
  Bool-cases, Option-cases, ok, err, Result-cases, checked_add, ◌≤◌, true,
}
use weregopher.Proxy.Message.{
  Direction, client_to_server, server_to_client, notification, success_response, Observation, Frame,
}
use weregopher.Proxy.Json.{Raw}
use weregopher.Proxy.Admit.{Candidate, admit}
use weregopher.Proxy.Release.{release}
use weregopher.Proxy.Prepare.{prepare}
use weregopher.Proxy.State.{Proxy, queue}
use weregopher.Proxy.Order.{frame_of, taken, admit-frames, release-frames}
use weregopher.Controls.Policy.{kind_eq, evaluate}
use weregopher.Controls.Journal.{record_accepted, record_forwarded, record_blocked}
use weregopher.Process.Limits.{
  ProcessError, initialization_sequence_violation, unexpected_server_initialization_message,
  not_running, blocked_by, control_error, proxy_error, ShutdownMode, graceful, immediate,
  forced_shutdown, protocol_failure, interception_blocked, observation_failure,
}
use weregopher.Process.State.{
  InitializationState, initialize_response_queued, awaiting_initialized, LifecycleState, running,
  graceful_shutdown, terminating, exited, Session, is_running, ensure_monotonic,
}
use weregopher.Process.Initialization.{
  client_initialization_after, is_id, delivered, observe_client_delivery,
}
use weregopher.Process.Client.{
  blocking_rule, block_candidate, record_admission, admit_in_order, intercept, send_candidate,
  send_client, record_release, deliver, next_for_client, shutdown_running, shutdown,
}
use weregopher.Process.Phase.{
  Course, Phase, course_of, phase_of, IsAlive, fails_forced, fails_protocol, fails_interception,
  fails_observation, ◌⟿◌, stands, moves, tick, ⟶*-now, ◌⟶◌, enter, take_response, drain, ◌⟶*◌, stop,
  one,
}
use weregopher.Process.Refinement.{Reach, stays, goes, Reach-▷, ends}

pub prepare-direction :
    (deserialize : List ℕ → Raw × Bool) (p : Proxy) (d : Direction) (bytes : List ℕ) (c : Candidate)
    → prepare deserialize p d bytes ≡ ok c
    → c.observation.direction ≡ d
unfolding prepare
prepare-direction deserialize p d bytes c e = ground arith

-- A session whose proxy took a candidate.
abbrev pub admitted : Session → Candidate → InitializationState → Phase
admitted s c next = record (phase_of s) {
  initialization = next;
  waiting =
      (s.proxy.to_server).frames ++ taken client_to_server c.observation.direction (frame_of c);
}

taken-client :
    (d : Direction) (f : Frame) → d ≡ client_to_server → taken client_to_server d f ≡ f ∷ []
taken-client d f from = rw from refl

pub taken-server :
    (d : Direction) (f : Frame) → d ≡ server_to_client → taken client_to_server d f ≡ []
taken-server d f from = rw from refl

-- A release toward the client leaves what waits for the process.
release-other :
    (instant_max : ℕ) (p : Proxy) (now : ℕ)
    → ((release instant_max p server_to_client now).0.to_server).frames ≡ (p.to_server).frames
unfolding queue
release-other instant_max p now =
    let r = release instant_max p server_to_client now in
    let kept = release-frames instant_max p server_to_client now client_to_server in
    elim (Result-cases r.1) [
      | inr (x, bad) ↦ sym (kept ∙ rw bad refl)
      | inl (none, good) ↦ sym (kept ∙ rw good refl)
      | inl (some f, good) ↦ sym (kept ∙ rw good refl)
    ]

delivered-Reach :
    (i : InitializationState) (s : Session) (o : Observation)
    → s.initialization ≡ i
    → IsAlive (course_of s)
    → Reach s (delivered i s o)
delivered-Reach (initialize_response_queued id) s o e alive =
    elim (Bool-cases (kind_eq o.kind success_response && is_id o.request_id id)) [
      | inl hit ↦ rw hit (
          goes s (record s { initialization = awaiting_initialized }) (ok tt) alive
            (take_response id e))
      | inr miss ↦ elim (Bool-cases (kind_eq o.kind notification)) [
        | inl other ↦ rw (miss, other) (stays s s (ok tt) alive refl)
        | inr bad ↦
            rw (miss, bad)
              (ends s s protocol_failure (err unexpected_server_initialization_message)
                fails_protocol alive refl)
      ]
    ]
delivered-Reach _ s o e alive = stays s s (ok tt) alive refl

observe_client_delivery-Reach :
    (s : Session) (f : Frame) → IsAlive (course_of s) → Reach s (observe_client_delivery s f)
unfolding observe_client_delivery
observe_client_delivery-Reach s f alive =
    delivered-Reach s.initialization s f.observation refl alive

is_running-running : (l : LifecycleState) → is_running l ≡ true → l ≡ running
is_running-running running live = refl
is_running-running _ live = absurd (ground (arith, live))

pub ensure_monotonic-le :
    (s : Session) (now : ℕ) {u : Unit {0}}
    → ensure_monotonic s now ≡ ok u
    → s.last_observed_time ≤ now
unfolding ensure_monotonic
ensure_monotonic-le s now e = ground (arith, e)

module _ (sha256 : List ℕ → List ℕ) where
  pub block_candidate-Reach :
      (s : Session) (o : Observation) (rule : ℕ)
      → IsAlive (course_of s)
      → Reach s (block_candidate sha256 s o rule)
  unfolding block_candidate
  block_candidate-Reach s o rule alive =
      let r = record_blocked sha256 s.events o rule in
      elim (Result-cases r.1) [
        | inr (x, bad) ↦
            rw (bad, block_candidate)
              (ends s (record s { events = r.0 }) observation_failure (err (control_error x))
                fails_observation alive refl)
        | inl (u, good) ↦
            rw (good, block_candidate)
              (ends s (record s { events = r.0 }) interception_blocked (err (blocked_by rule))
                fails_interception alive refl)
      ]

  -- What a refusal of the proxy makes of a session that is as it was.
  abbrev pub Refuses : (Session → Session) → Type 0
  Refuses refused =
      (s t : Session) (x : ProcessError)
      → IsAlive (course_of s)
      → phase_of s ≡ phase_of t
      → Reach {A = Observation} s (refused t, err x)

  record_admission-Reach :
      (s t : Session) (o : Observation) (next : InitializationState)
      → IsAlive (course_of s)
      → course_of s ≡ course_of t
      → phase_of s ⟶* record (phase_of t) { initialization = next }
      → Reach s (record_admission sha256 t o next)
  unfolding record_admission
  record_admission-Reach s t o next alive same path =
      let r = record_accepted sha256 t.events o in
      elim (Result-cases r.1) [
        | inr (x, bad) ↦
            rw (bad, record_admission)
              (ends s (record t { events = r.0 }) observation_failure (err (control_error x))
                fails_observation alive same)
        | inl (u, good) ↦
            rw (good, record_admission)
              (record { path = path; alive = subst (λ (c : Course). IsAlive c) same alive })
      ]

  admit_in_order-Reach :
      (refused : Session → Session) (s : Session) (c : Candidate) (next : InitializationState)
      → Refuses refused
      → IsAlive (course_of s)
      → phase_of s ⟶* admitted s c next
      → Reach s (admit_in_order sha256 refused s c next)
  unfolding admit_in_order queue
  admit_in_order-Reach refused s c next refuses alive path =
      let r = admit sha256 s.proxy c in
      let t = record s { proxy = r.0 } in
      let moved = admit-frames sha256 s.proxy c client_to_server in
      elim (Result-cases r.1) [
        | inr (x, bad) ↦
            let same : (s.proxy.to_server).frames ≡ (r.0.to_server).frames =
              sym (moved ∙ rw bad (append-nil (s.proxy.to_server).frames)) in
            rw (bad, admit_in_order)
              (refuses s t (proxy_error x) alive
                (ap (λ fs. record (phase_of s) { waiting = fs }) same))
        | inl (o, good) ↦
            let whole : (r.0.to_server).frames
                ≡ (s.proxy.to_server).frames
                  ++ taken client_to_server c.observation.direction (frame_of c) =
              moved ∙ rw good refl in
            rw (good, admit_in_order)
              (record_admission-Reach s t o next alive refl (
                subst
                  (λ fs. phase_of s ⟶* record (phase_of s) { initialization = next; waiting = fs })
                  (sym whole) path))
      ]

  pub intercept-Reach :
      (refused : Session → Session) (s : Session) (c : Candidate) (next : InitializationState)
      → Refuses refused
      → IsAlive (course_of s)
      → phase_of s ⟶* admitted s c next
      → Reach s (intercept sha256 refused s c next)
  unfolding intercept
  intercept-Reach refused s c next refuses alive path =
      elim (Option-cases (blocking_rule (evaluate s.interception c.observation))) [
        | inr (rule, hit) ↦ rw (hit, intercept) (block_candidate-Reach s c.observation rule alive)
        | inl clear ↦
            rw (clear, intercept) (admit_in_order-Reach refused s c next refuses alive path)
      ]

  send_candidate-Reach :
      (s : Session) (c : Candidate)
      → IsAlive (course_of s)
      → s.lifecycle ≡ running
      → c.observation.direction ≡ client_to_server
      → Reach s (send_candidate sha256 s c)
  unfolding send_candidate
  send_candidate-Reach s c alive live from =
      elim (Option-cases (client_initialization_after s.initialization c.observation)) [
        | inl bad ↦
            rw (bad, send_candidate)
              (ends s s protocol_failure (err initialization_sequence_violation) fails_protocol
                alive refl)
        | inr (next, good) ↦
            let step : phase_of s ⟶ record (phase_of s) {
              initialization = next;
              waiting = (s.proxy.to_server).frames ++ frame_of c ∷ [];
            } =
              enter (frame_of c) next live good in
            rw (good, send_candidate)
              (intercept-Reach (λ entered. entered) s c next
                (λ a b x still same. stays a b (err x) still same) alive
                (subst
                  (λ fs. phase_of s ⟶* record (phase_of s) {
                    initialization = next;
                    waiting = (s.proxy.to_server).frames ++ fs;
                  })
                  (sym (taken-client c.observation.direction (frame_of c) from)) (one step)))
      ]

  pub send_client-Reach :
      (deserialize : List ℕ → Raw × Bool) (s : Session) (bytes : List ℕ)
      → IsAlive (course_of s)
      → Reach s (send_client sha256 deserialize s bytes)
  unfolding send_client
  send_client-Reach deserialize s bytes alive = elim (Bool-cases (is_running s.lifecycle)) [
    | inr shut ↦ rw (shut, send_client) (stays s s (err not_running) alive refl)
    | inl live ↦ elim (Result-cases (prepare deserialize s.proxy client_to_server bytes)) [
      | inr (x, bad) ↦ rw (live, bad, send_client) (stays s s (err (proxy_error x)) alive refl)
      | inl (c, good) ↦
          rw (live, good, send_client)
            (send_candidate-Reach s c alive (is_running-running s.lifecycle live)
              (prepare-direction deserialize s.proxy client_to_server bytes c good))
    ]
  ]

  pub record_release-Reach :
      (s t : Session) (f : Frame)
      → IsAlive (course_of s)
      → course_of s ≡ course_of t
      → phase_of s ⟶* phase_of t
      → Reach s (record_release sha256 t f)
  unfolding record_release
  record_release-Reach s t f alive same path =
      let r = record_forwarded sha256 t.events f.observation in
      elim (Result-cases r.1) [
        | inr (x, bad) ↦
            rw (bad, record_release)
              (ends s (record t { events = r.0 }) observation_failure (err (control_error x))
                fails_observation alive same)
        | inl (u, good) ↦
            rw (good, record_release)
              (record { path = path; alive = subst (λ (c : Course). IsAlive c) same alive })
      ]

  deliver-Reach :
      (s : Session) (o : Option Frame) → IsAlive (course_of s) → Reach s (deliver sha256 s o)
  unfolding deliver
  deliver-Reach s none alive = stays s s (ok tt) alive refl
  deliver-Reach s (some f) alive =
      Reach-▷ s (record_release sha256 s f) (λ t unit. observe_client_delivery t f)
        (record_release-Reach s s f alive refl stop)
        (λ t u e still. observe_client_delivery-Reach t f still)

  pub next_for_client-path :
      (instant_max : ℕ) (s : Session) (now : ℕ)
      → IsAlive (course_of s)
      → phase_of s ⟿ phase_of (next_for_client sha256 instant_max s now).0
  unfolding next_for_client
  next_for_client-path instant_max s now alive =
      let r = release instant_max s.proxy server_to_client now in
      let t = record s { proxy = r.0 } in
      let same : phase_of s ≡ phase_of t =
        ap (λ fs. record (phase_of s) { waiting = fs })
          (sym (release-other instant_max s.proxy now)) in
      elim (Result-cases (ensure_monotonic s now)) [
        | inr (x, early) ↦ rw (early, next_for_client) stands
        | inl (u, timely) ↦ elim (Result-cases r.1) [
          | inr (x, bad) ↦
              let began : Reach {A = Unit {0}} s (t, ok tt) = stays s t (ok tt) alive same in
              rw (timely, alive, bad, next_for_client) (moves began.path stands)
          | inl (o, good) ↦
              let began : Reach {A = Unit {0}} s (t, ok tt) = stays s t (ok tt) alive same in
              let d = deliver sha256 t o in
              let held = deliver-Reach t o began.alive in
              let at = ⟶*-now held.path ∙ ⟶*-now began.path in
              elim (Result-cases d.1) [
                | inr (x, bad) ↦
                    let whole : d ≡ (d.0, err x) = cc (bad) in
                    rw (timely, alive, good, whole, next_for_client)
                      (moves began.path (moves held.path stands))
                | inl (v, done) ↦
                    let whole : d ≡ (d.0, ok v) = cc (done) in
                    rw (timely, alive, good, whole, next_for_client)
                      (moves began.path (
                        moves held.path
                          (tick now (omega (arith, at, ensure_monotonic-le s now timely)) stands)))
              ]
        ]
      ]

shutdown_running-path :
    (mode : ShutdownMode) (phase : LifecycleState) (instant_max : ℕ) (s : Session) (now : ℕ)
    → s.lifecycle ≡ phase
    → IsAlive (course_of s)
    → s.last_observed_time ≤ now
    → phase_of s ⟿ phase_of (shutdown_running mode phase instant_max s now).0
shutdown_running-path graceful running instant_max s now e alive timely =
    elim (Option-cases (checked_add instant_max now s.limits.shutdown_timeout)) [
      | inl late ↦ rw (late, shutdown_running) stands
      | inr (deadline, fits) ↦
          rw (fits, shutdown_running) (moves (one (drain deadline e)) (tick now timely stands))
    ]
shutdown_running-path graceful (graceful_shutdown d) instant_max s now e alive timely =
    tick now timely stands
shutdown_running-path graceful terminating instant_max s now e alive timely = tick now timely stands
shutdown_running-path graceful exited instant_max s now e alive timely = tick now timely stands
shutdown_running-path immediate phase instant_max s now e alive timely =
    let r = ends s s forced_shutdown (ok tt) fails_forced alive refl in
    moves r.path (tick now (omega (arith, ⟶*-now r.path, timely)) stands)

pub shutdown-path :
    (instant_max : ℕ) (s : Session) (mode : ShutdownMode) (now : ℕ)
    → IsAlive (course_of s)
    → phase_of s ⟿ phase_of (shutdown instant_max s mode now).0
unfolding shutdown
shutdown-path instant_max s mode now alive = elim (Result-cases (ensure_monotonic s now)) [
  | inr (x, early) ↦ rw (early, shutdown) stands
  | inl (u, timely) ↦
      rw (timely, alive, shutdown)
        (shutdown_running-path mode s.lifecycle instant_max s now refl alive
          (ensure_monotonic-le s now timely))
]
