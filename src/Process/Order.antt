-- ===== src/Process/Order.antt =====
-- The order in which frames go to the process.
use mathlib.Core.Path.{subst}
use weregopher.Base.{
  ◌≡◌, refl, ap, ◌≢◌, inl, inr, true, false, Option, none, some, List, [], ◌∷◌, ◌++◌, arith,
  Bool-cases, Option-cases, All, All-append, bytes_eq_iff,
}
use weregopher.Proxy.Message.{Kind, request, notification, Frame}
use weregopher.Proxy.Text.{Text}
use weregopher.Process.State.{
  InitializationState, awaiting_initialize, initialize_queued, awaiting_initialize_response,
  initialize_response_queued, awaiting_initialized, initialized_queued, ready, WriterCommand,
  frame_command, close_command,
}
use weregopher.Process.Initialization.{
  is_call, initialize, initialized, client_initialization_after, dispatched_after,
}
use weregopher.Process.Phase.{
  Phase, ◌⟶◌, enter, respond, take_response, dispatch, close_pipe, drain, leave, finish_stdout,
  finish_stderr, terminate, exit, ◌⟿◌, stands, moves, tick, ◌⟶*◌, stop, more,
}
use weregopher.Controls.Policy.{message_kind_code-injective, kind_eq}
use weregopher.Ownership.{option_eq}

-- The frames that the writer's channel took.
abbrev pub frames_sent : List WriterCommand → List Frame
frames_sent [] = []
frames_sent (frame_command f ∷ commands) = f ∷ frames_sent commands
frames_sent (close_command ∷ commands) = frames_sent commands

pub record IsInitialize (f : Frame) : Type 0 where
  pub asks : f.observation.kind ≡ request
  pub named : f.observation.method ≡ some initialize

pub record IsInitialized (f : Frame) : Type 0 where
  pub notifies : f.observation.kind ≡ notification
  pub named : f.observation.method ≡ some initialized

pub record IsOrdinary (f : Frame) : Type 0 where
  pub not_initialize : f.observation.method ≢ some initialize
  pub not_initialized : f.observation.method ≢ some initialized

-- The process first gets one `initialize` request, then one `initialized` notification, and then
-- neither of them again.
pub data IsOpening : List Frame → Type 0 where
  nothing_yet : IsOpening []
  asked : (f : Frame) → IsInitialize f → IsOpening (f ∷ [])
  opened_up :
      (f g : Frame) (rest : List Frame)
      → IsInitialize f
      → IsInitialized g
      → All IsOrdinary rest
      → IsOpening (f ∷ g ∷ rest)

abbrev HasAsked : List Frame → Type 0
HasAsked sent = (f : Frame) × (sent ≡ f ∷ []) × IsInitialize f

abbrev HasOpened : List Frame → Type 0
HasOpened sent =
    (f : Frame) × (g : Frame) × (rest : List Frame) × (sent ≡ f ∷ g ∷ rest)
    × IsInitialize f
    × IsInitialized g
    × All IsOrdinary rest

-- What was sent and what waits, by how far the initialization is.
abbrev Expected : InitializationState → List Frame → List Frame → Type 0
Expected awaiting_initialize sent waiting = (sent ≡ []) × (waiting ≡ [])
Expected (initialize_queued id) sent waiting =
    (sent ≡ []) × ((f : Frame) × (waiting ≡ f ∷ []) × IsInitialize f)
Expected (awaiting_initialize_response id) sent waiting = HasAsked sent × (waiting ≡ [])
Expected (initialize_response_queued id) sent waiting = HasAsked sent × (waiting ≡ [])
Expected awaiting_initialized sent waiting = HasAsked sent × (waiting ≡ [])
Expected initialized_queued sent waiting =
    HasAsked sent × ((g : Frame) × (waiting ≡ g ∷ []) × IsInitialized g)
Expected ready sent waiting = HasOpened sent × All IsOrdinary waiting

pub record OrderInv (p : Phase) : Type 0 where
  pub opening : IsOpening (frames_sent p.course.writer_commands)
  pub in_order :
      p.writer_tx ≡ true
      → Expected p.initialization (frames_sent p.course.writer_commands) p.waiting

frames_sent-frame :
    (commands : List WriterCommand) (f : Frame)
    → frames_sent (commands ++ frame_command f ∷ []) ≡ frames_sent commands ++ f ∷ []
frames_sent-frame [] f = refl
frames_sent-frame (frame_command g ∷ cs) f = ap (◌∷◌ g) (frames_sent-frame cs f)
frames_sent-frame (close_command ∷ cs) f = frames_sent-frame cs f

frames_sent-close :
    (commands : List WriterCommand)
    → frames_sent (commands ++ close_command ∷ []) ≡ frames_sent commands
frames_sent-close [] = refl
frames_sent-close (frame_command g ∷ cs) = ap (◌∷◌ g) (frames_sent-close cs)
frames_sent-close (close_command ∷ cs) = frames_sent-close cs

HasAsked-IsOpening : (sent : List Frame) → HasAsked sent → IsOpening sent
HasAsked-IsOpening sent (f, e, first) = rw e (asked f first)

Expected-IsOpening :
    (i : InitializationState) (sent waiting : List Frame) → Expected i sent waiting → IsOpening sent
Expected-IsOpening awaiting_initialize sent waiting x = rw (x.0) nothing_yet
Expected-IsOpening (initialize_queued id) sent waiting x = rw (x.0) nothing_yet
Expected-IsOpening (awaiting_initialize_response id) sent waiting x = HasAsked-IsOpening sent x.0
Expected-IsOpening (initialize_response_queued id) sent waiting x = HasAsked-IsOpening sent x.0
Expected-IsOpening awaiting_initialized sent waiting x = HasAsked-IsOpening sent x.0
Expected-IsOpening initialized_queued sent waiting x = HasAsked-IsOpening sent x.0
Expected-IsOpening ready sent waiting ((f, g, rest, e, first, second, later), _) =
    rw e (opened_up f g rest first second later)

option_eq-some : (a : Option Text) (m : Text) → option_eq a (some m) ≡ true → a ≡ some m
unfolding option_eq
option_eq-some none m e = absurd (ground arith)
option_eq-some (some n) m e = ap some ((bytes_eq_iff n m).0 e)

option_eq-none : (a : Option Text) (m : Text) → option_eq a (some m) ≡ false → a ≢ some m
unfolding option_eq
option_eq-none a m e same = ground (arith, bytes_eq_iff m m)

kind_eq→≡ : (a b : Kind) → kind_eq a b ≡ true → a ≡ b
unfolding kind_eq
kind_eq→≡ a b e = ground (arith, message_kind_code-injective a b)

is_call→IsInitialize :
    (f : Frame) → is_call request initialize f.observation ≡ true → IsInitialize f
is_call→IsInitialize f e = record {
  asks = kind_eq→≡ f.observation.kind request (ground arith);
  named = option_eq-some f.observation.method initialize (ground arith);
}

is_call→IsInitialized :
    (f : Frame) → is_call notification initialized f.observation ≡ true → IsInitialized f
is_call→IsInitialized f e = record {
  notifies = kind_eq→≡ f.observation.kind notification (ground arith);
  named = option_eq-some f.observation.method initialized (ground arith);
}

enter-Expected :
    (i next : InitializationState) (sent waiting : List Frame) (f : Frame)
    → client_initialization_after i f.observation ≡ some next
    → Expected i sent waiting
    → Expected next sent (waiting ++ f ∷ [])
unfolding client_initialization_after
enter-Expected awaiting_initialize next sent waiting f e x =
    elim (Bool-cases (is_call request initialize f.observation)) [
      | inr other ↦ absurd (ground (arith, other, e))
      | inl hit ↦ elim (Option-cases f.observation.request_id) [
        | inl bare ↦ absurd (ground (arith, hit, bare, e))
        | inr (id, given) ↦
            let it : next ≡ initialize_queued id = ground (arith, hit, given, e) in
            rw it (x.0, (f, rw (x.1) refl, is_call→IsInitialize f hit))
      ]
    ]
enter-Expected awaiting_initialized next sent waiting f e x =
    elim (Bool-cases (is_call notification initialized f.observation)) [
      | inr other ↦ absurd (ground (arith, other, e))
      | inl hit ↦
          let it : next ≡ initialized_queued = ground (arith, hit, e) in
          rw it (x.0, (f, rw (x.1) refl, is_call→IsInitialized f hit))
    ]
enter-Expected ready next sent waiting f e x =
    let it : next ≡ ready = ground (arith, e) in
    let plain : IsOrdinary f = record {
      not_initialize = option_eq-none f.observation.method initialize (ground (arith, e));
      not_initialized = option_eq-none f.observation.method initialized (ground (arith, e));
    } in
    rw it (x.0, All-append IsOrdinary waiting (f ∷ []) x.1 (plain, tt))
enter-Expected _ next sent waiting f e x = absurd (ground arith)

dispatch-Expected :
    (i next : InitializationState) (sent rest : List Frame) (f : Frame)
    → dispatched_after i f.observation ≡ some next
    → Expected i sent (f ∷ rest)
    → Expected next (sent ++ f ∷ []) rest
unfolding dispatched_after
dispatch-Expected (initialize_queued id) next sent rest f e (empty, (g, alone, first)) =
    let it : next ≡ awaiting_initialize_response id = ground (arith, e) in
    let none_left : rest ≡ [] = cc (alone) in
    let same : g ≡ f = cc (alone) in
    rw (it, empty) ((f, refl, subst IsInitialize same first), none_left)
dispatch-Expected initialized_queued next sent rest f e
      ((f0, sent_one, first), (g, alone, second)) =
    let it : next ≡ ready = ground (arith, e) in
    let none_left : rest ≡ [] = cc (alone) in
    let same : g ≡ f = cc (alone) in
    rw (it, sent_one, none_left) ((f0, f, [], refl, first, subst IsInitialized same second, tt), tt)
dispatch-Expected ready next sent rest f e
      ((f0, g0, past, shape, first, second, later), (plain, others)) =
    let it : next ≡ ready = ground (arith, e) in
    rw (it, shape)
      (
        (
          f0,
          g0,
          past ++ f ∷ [],
          refl,
          first,
          second,
          All-append IsOrdinary past (f ∷ []) later (plain, tt),
        ),
        others,
      )
dispatch-Expected _ next sent rest f e x = absurd (ground arith)

⟶-OrderInv : {p q : Phase} → p ⟶ q → OrderInv p → OrderInv q
⟶-OrderInv {p = p} (enter f next at fits) v = record {
  opening = v.opening;
  in_order = λ held. enter-Expected p.initialization next _ p.waiting f fits (v.in_order held);
}
⟶-OrderInv {p = p} (respond id at) v = record {
  opening = v.opening;
  in_order = λ held. rw at at v.in_order held;
}
⟶-OrderInv {p = p} (take_response id at) v = record {
  opening = v.opening;
  in_order = λ held. rw at at v.in_order held;
}
⟶-OrderInv {p = p} (dispatch f rest next held first fits) v =
    let before = rw first at v.in_order held in
    let after = dispatch-Expected p.initialization next _ rest f fits before in
    let whole = frames_sent-frame p.course.writer_commands f in
    record {
      opening = rw whole (Expected-IsOpening next _ rest after);
      in_order = λ _. rw whole after;
    }
⟶-OrderInv {p = p} (close_pipe idle) v = record {
  opening = rw (frames_sent-close p.course.writer_commands) (v.opening);
  in_order = λ held. absurd (ground (arith, held));
}
⟶-OrderInv {p = p} (drain deadline at) v = record { opening = v.opening; in_order = v.in_order }
⟶-OrderInv {p = p} (leave process deadline there timely) v = record {
  opening = v.opening;
  in_order = v.in_order;
}
⟶-OrderInv {p = p} finish_stdout v = record { opening = v.opening; in_order = v.in_order }
⟶-OrderInv {p = p} finish_stderr v = record { opening = v.opening; in_order = v.in_order }
⟶-OrderInv {p = p} (terminate outcome next waiting failure alive) v = record {
  opening = v.opening;
  in_order = λ held. absurd (ground (arith, held));
}
⟶-OrderInv {p = p} (exit report process alive gone over told why) v = record {
  opening = v.opening;
  in_order = λ held. absurd (ground (arith, held));
}

pub ⟶*-OrderInv : {p q : Phase} → p ⟶* q → OrderInv p → OrderInv q
⟶*-OrderInv stop v = v
⟶*-OrderInv (more step steps) v = ⟶*-OrderInv steps (⟶-OrderInv step v)

pub ⟿-OrderInv : {p q : Phase} → p ⟿ q → OrderInv p → OrderInv q
⟿-OrderInv stands v = v
⟿-OrderInv (moves steps rest) v = ⟿-OrderInv rest (⟶*-OrderInv steps v)
⟿-OrderInv (tick now timely rest) v =
    ⟿-OrderInv rest (record { opening = v.opening; in_order = v.in_order })
