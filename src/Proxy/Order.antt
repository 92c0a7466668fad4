-- ===== src/Proxy/Order.antt =====
-- The proxy is transparent: in each direction exact frames leave in the order in which they came.
use mathlib.Core.List.{append_assoc, append-nil}
use mathlib.Core.Path.{◌≡⟨◌⟩◌, ◌∎}
use weregopher.Base.{
  ℕ, ◌≡◌, refl, sym, ◌∙◌, ap, Bool, true, false, Option, none, some, List, [], ◌∷◌, ◌++◌, Result,
  ok, err, arith, inl, inr, Result-cases,
}
use weregopher.Proxy.Message.{
  Direction, client_to_server, server_to_client, RequestId, Observation, Frame,
}
use weregopher.Proxy.Queue.{ProxyQueue, ProxyError, push_after_capacity_check, pop, pop_front}
use weregopher.Proxy.State.{
  Proxy, ProxyCounters, queue, set_queue, set_requests, set_request_history, close,
}
use weregopher.Proxy.Correlation.{ResponseAction, complete_request, apply_correlation}
use weregopher.Proxy.Admit.{Candidate, commit, admit_candidate, admit}
use weregopher.Proxy.Admit.Cases.{admit_candidate_cases, admit_cases}
use weregopher.Proxy.Release.{mark_pending, take_front, release}
use weregopher.Proxy.Release.Cases.{release_cases, id_of}
use weregopher.Proxy.Expire.{ExpiredRequest, retire_all, expire_requests, all_expired}
use weregopher.Proxy.Run.{Call, ingests, admits, releases, expires, closes, step, run}

abbrev pub frames : Direction → Proxy → List Frame
frames d p = (queue d p).frames

same_direction : Direction → Direction → Bool
same_direction client_to_server client_to_server = true
same_direction server_to_client server_to_client = true
same_direction _ _ = false

abbrev pub frame_of : Candidate → Frame
frame_of c = record { observation = c.observation; json_bytes = c.json_bytes }

abbrev pub taken : Direction → Direction → Frame → List Frame
taken client_to_server client_to_server f = f ∷ []
taken server_to_client server_to_client f = f ∷ []
taken _ _ f = []

-- The frames that an admission put into a direction's queue.
abbrev pub entered : Direction → Candidate → Result ProxyError Observation → List Frame
entered d c (ok o) = taken d c.observation.direction (frame_of c)
entered d c (err e) = []

-- The frames that a release took out of it.
abbrev pub left : Direction → Direction → Result ProxyError (Option Frame) → List Frame
left d from (ok (some f)) = taken d from f
left d from _ = []

module _ (sha256 : List ℕ → List ℕ) where
  complete_request-frames :
      (p : Proxy) (origin : Direction) (id : RequestId) (d : Direction)
      → frames d (complete_request sha256 p origin id).0 ≡ frames d p
  unfolding complete_request queue set_requests set_request_history
  complete_request-frames p origin id d = ground arith

  apply_correlation-frames :
      (p : Proxy) (o : Observation) (a : ResponseAction) (d : Direction)
      → frames d (apply_correlation sha256 p o a).0 ≡ frames d p
  unfolding apply_correlation queue set_requests set_request_history
  apply_correlation-frames p o a d = ground arith

  commit-frames :
      (p : Proxy) (c : Candidate) (a : ResponseAction) (n : ProxyCounters) (d : Direction)
      → frames d (commit sha256 p c a n).0 ≡ frames d p ++ entered d c (commit sha256 p c a n).1
  unfolding commit push_after_capacity_check queue set_queue
  commit-frames p c a n client_to_server = ground (
    arith,
    append-nil p.to_server.frames,
    apply_correlation-frames p c.observation a client_to_server,
  )
  commit-frames p c a n server_to_client = ground (
    arith,
    append-nil p.to_client.frames,
    apply_correlation-frames p c.observation a server_to_client,
  )

  -- What an admission puts into the queues is what its result reports.
  abbrev Enters : Proxy → Candidate → Direction → Proxy × Result ProxyError Observation → Type 0
  Enters p c d r = frames d r.0 ≡ frames d p ++ entered d c r.1

  admit_candidate-frames :
      (p : Proxy) (c : Candidate) (d : Direction) → Enters p c d (admit_candidate sha256 p c)
  admit_candidate-frames p c d =
      admit_candidate_cases sha256 p c (Enters p c d) (λ x _. sym (append-nil (frames d p)))
        (λ a n _. commit-frames p c a n d)

  pub admit-frames : (p : Proxy) (c : Candidate) (d : Direction) → Enters p c d (admit sha256 p c)
  admit-frames p c d =
      admit_cases sha256 p c (Enters p c d) (λ x _. sym (append-nil (frames d p)))
        (λ a n _. commit-frames p c a n d)

  retire_all-frames :
      (p : Proxy) (es : List ExpiredRequest) (d : Direction)
      → frames d (retire_all sha256 p es).0 ≡ frames d p
  unfolding retire_all
  retire_all-frames p [] d = refl
  retire_all-frames p (e ∷ es) d =
      let next = (complete_request sha256 p e.origin e.request_id).0 in
      ground (arith, complete_request-frames p e.origin e.request_id d, retire_all-frames next es d)

  pub expire_requests-frames :
      (p : Proxy) (now : ℕ) (d : Direction) → frames d (expire_requests sha256 p now).0 ≡ frames d p
  unfolding expire_requests queue
  expire_requests-frames p now client_to_server =
      ground (arith, retire_all-frames p (all_expired p now) client_to_server)
  expire_requests-frames p now server_to_client =
      ground (arith, retire_all-frames p (all_expired p now) server_to_client)

mark_pending-queue :
    (p : Proxy) (from : Direction) (id : Option RequestId) (deadline : ℕ) (m : Proxy)
    (d : Direction)
    → mark_pending p from id deadline ≡ ok m
    → queue d m ≡ queue d p
unfolding mark_pending queue set_requests
mark_pending-queue p from none deadline m d e = ground arith
mark_pending-queue p from (some id) deadline m d e = ground arith

-- What a release takes out of the queues is what its result reports.
abbrev Leaves : Proxy → Direction → Direction → Proxy × Result ProxyError (Option Frame) → Type 0
Leaves p from d r = frames d p ≡ left d from r.1 ++ frames d r.0

abbrev option_list : Option Frame → List Frame
option_list none = []
option_list (some f) = f ∷ []

pop_front-frames :
    (q : ProxyQueue) (fs : List Frame) (r : ProxyQueue) (o : Option Frame)
    → q.frames ≡ fs
    → pop_front q fs ≡ ok (r, o)
    → q.frames ≡ option_list o ++ r.frames
unfolding pop_front
pop_front-frames q [] r o same e = ground arith
pop_front-frames q (f ∷ fs) r o same e = ground arith

pop-frames :
    (q r : ProxyQueue) (o : Option Frame) → pop q ≡ ok (r, o) → q.frames ≡ option_list o ++ r.frames
pop-frames q r o e = pop_front-frames q q.frames r o refl (unfold pop in e)

take_front-frames :
    (p : Proxy) (from : Direction) (n : ProxyCounters) (now : ℕ) (d : Direction)
    → Leaves p from d (take_front p from n now)
unfolding take_front queue set_queue
take_front-frames p from n now d = elim (Result-cases (pop (queue from p))) [
  | inr (x, e) ↦ ground (arith, e)
  | inl ((r, o), e) ↦ ground (arith, e, pop-frames (queue from p) r o e)
]

pub close-frames : (d : Direction) (p : Proxy) → frames d (close p).0 ≡ []
unfolding close queue
close-frames d p = ground arith

pub release-frames :
    (instant_max : ℕ) (p : Proxy) (from : Direction) (now : ℕ) (d : Direction)
    → Leaves p from d (release instant_max p from now)
unfolding queue
release-frames instant_max p from now d =
    release_cases instant_max p from now (Leaves p from d) (λ x _. refl) (λ _. ground arith)
      λ f deadline n m _ marked.
        sym (
          ap (λ (q : ProxyQueue). q.frames)
            (mark_pending-queue p from (id_of f) deadline m d marked))
        ∙ take_front-frames m from n now d

module _ (sha256 : List ℕ → List ℕ) (instant_max : ℕ) where
  -- The frames that one call took into a direction's queue, by the result that it returned.
  pub arrivals : Direction → Proxy → Call → List Frame
  arrivals d p (ingests c) = entered d c (admit_candidate sha256 p c).1
  arrivals d p (admits c) = entered d c (admit sha256 p c).1
  arrivals d p _ = []

  -- The frames that one call released, or that closing abandoned.
  pub departures : Direction → Proxy → Call → List Frame
  departures d p (releases from now) = left d from (release instant_max p from now).1
  departures d p closes = frames d p
  departures d p _ = []

  pub all_arrivals : Direction → Proxy → List Call → List Frame
  all_arrivals d p [] = []
  all_arrivals d p (c ∷ cs) = arrivals d p c ++ all_arrivals d (step sha256 instant_max p c) cs

  pub all_departures : Direction → Proxy → List Call → List Frame
  all_departures d p [] = []
  all_departures d p (c ∷ cs) =
      departures d p c ++ all_departures d (step sha256 instant_max p c) cs

  step-frames :
      (d : Direction) (p : Proxy) (c : Call)
      → frames d p ++ arrivals d p c ≡ departures d p c ++ frames d (step sha256 instant_max p c)
  unfolding arrivals departures step
  step-frames d p (ingests c) = sym (admit_candidate-frames sha256 p c d)
  step-frames d p (admits c) = sym (admit-frames sha256 p c d)
  step-frames d p (releases from now) =
      append-nil (frames d p) ∙ release-frames instant_max p from now d
  step-frames d p (expires now) =
      append-nil (frames d p) ∙ sym (expire_requests-frames sha256 p now d)
  step-frames d p closes = ap (◌++◌ (frames d p)) (sym (close-frames d p))

  -- The proxy is transparent. In each direction, whatever the history of calls, the frames that were
  -- queued and that came in are, one for one and in order, those that were released or abandoned by
  -- closing and those still queued: none is lost, changed, repeated or overtaken.
  pub run-frames :
      (d : Direction) (p : Proxy) (cs : List Call)
      → frames d p ++ all_arrivals d p cs
        ≡ all_departures d p cs ++ frames d (run sha256 instant_max p cs)
  unfolding all_arrivals all_departures run
  run-frames d p [] = append-nil (frames d p)
  run-frames d p (c ∷ cs) =
      let p' = step sha256 instant_max p c in
      frames d p ++ (arrivals d p c ++ all_arrivals d p' cs)
      ≡⟨ sym (append_assoc (frames d p) (arrivals d p c) (all_arrivals d p' cs)) ⟩
        (frames d p ++ arrivals d p c) ++ all_arrivals d p' cs
      ≡⟨ ap (λ (fs : List Frame). fs ++ all_arrivals d p' cs) (step-frames d p c) ⟩
        (departures d p c ++ frames d p') ++ all_arrivals d p' cs
      ≡⟨ append_assoc (departures d p c) (frames d p') (all_arrivals d p' cs) ⟩
        departures d p c ++ (frames d p' ++ all_arrivals d p' cs)
      ≡⟨ ap (◌++◌ (departures d p c)) (run-frames d p' cs) ⟩
        departures d p c ++ (all_departures d p' cs ++ frames d (run sha256 instant_max p' cs))
      ≡⟨ sym (append_assoc (departures d p c) (all_departures d p' cs) _) ⟩
        (departures d p c ++ all_departures d p' cs) ++ frames d (run sha256 instant_max p' cs) ∎
