-- ===== src/Process/Reader/Lines.antt =====
-- The reader against a reading of its bytes one by one.
use weregopher.Base.{
  ℕ, zero, suc, ◌+◌, ◌≤◌, ◌≡◌, refl, ap, ◌∙◌, inl, inr, Bool, true, false, Option, none, some, List,
  [], ◌∷◌, ◌++◌, arith, ltb, ◌==◌, if◌then◌else◌, Bool-cases, length, length-append, ok, err,
  u64_max, usize_max, saturating_add,
}
use weregopher.Process.Worker.{ReaderEvent, line, line_too_long, reader_failed}
use weregopher.Process.Reader.{
  Reading, fill_buf, newline, split_line, consumed, buffered, kept, emitted, end_event, fits,
  reader_worker,
}

-- How the bytes end: `none` at the end of the pipe, or with an error.
abbrev pub ended : List ℕ → Option ℕ → ReaderEvent
ended so_far none = end_event so_far
ended so_far (some kind) = reader_failed kind

-- What a reader has to report of a run of bytes, one byte after another.
unfoldable pub lines_of : ℕ → List ℕ → List ℕ → Option ℕ → List ReaderEvent
lines_of max_line_bytes so_far [] ending = ended so_far ending ∷ []
lines_of max_line_bytes so_far (b ∷ bs) ending =
    let fresh = lines_of max_line_bytes [] bs ending in
    let longer = lines_of max_line_bytes (so_far ++ b ∷ []) bs ending in
    if b == newline
    then line so_far ∷ fresh
    else if ltb max_line_bytes (suc (length so_far))
    then line_too_long ∷ []
    else longer

-- The bytes that the reads of a pipe carry, up to its end or to an error, and which it is.
unfoldable pub carried : List Reading → List ℕ × Option ℕ
carried [] = ([], none)
carried (err kind ∷ rs) = ([], some kind)
carried (ok [] ∷ rs) = ([], none)
carried (ok (b ∷ bs) ∷ rs) = ((b ∷ bs) ++ (carried rs).0, (carried rs).1)

-- The rounds that reads can take.
unfoldable pub rounds_of : List Reading → ℕ
rounds_of [] = 0
rounds_of (err kind ∷ rs) = suc (rounds_of rs)
rounds_of (ok bs ∷ rs) = suc (length bs + rounds_of rs)

append-[] : (xs : List ℕ) → xs ++ [] ≡ xs
append-[] [] = refl
append-[] (x ∷ xs) = ap (λ ys. x ∷ ys) (append-[] xs)

snoc-append : (xs : List ℕ) (b : ℕ) (ys : List ℕ) → (xs ++ (b ∷ [])) ++ ys ≡ xs ++ (b ∷ ys)
snoc-append [] b ys = refl
snoc-append (x ∷ xs) b ys = ap (λ zs. x ∷ zs) (snoc-append xs b ys)

split_line-shorter : (b : ℕ) (bs : List ℕ) → length (buffered (split_line (b ∷ bs)).1) ≤ length bs
unfolding split_line
split_line-shorter b [] = elim (Bool-cases (b == newline)) [
  | inl e ↦ rw (e, split_line) (omega arith)
  | inr e ↦ rw (e, split_line) (omega arith)
]
split_line-shorter b (c ∷ cs) = elim (Bool-cases (b == newline)) [
  | inl e ↦ rw (e, split_line) (omega arith)
  | inr e ↦ rw (e, split_line) (omega (arith, split_line-shorter c cs))
]

module _ (max_line_bytes : ℕ) (tail : List ℕ) (ending : Option ℕ) where
  -- What is to be reported once a chunk was split.
  abbrev resumed : ℕ → List ℕ → Option (List ℕ) → List ReaderEvent
  resumed next_length next rest =
      if ltb max_line_bytes next_length
      then line_too_long ∷ []
      else emitted next rest
        ++ lines_of max_line_bytes (kept next rest) (buffered rest ++ tail) ending

  resumed-same :
      (m n : ℕ) (xs ys : List ℕ) (rest : Option (List ℕ))
      → m ≡ n
      → xs ≡ ys
      → resumed m xs rest ≡ resumed n ys rest
  resumed-same m n xs ys rest e f = cc (e, f)

  -- A chunk may be read at once: the bytes one by one come to the same.
  lines_of-split :
      (so_far chunk : List ℕ)
      → length so_far ≤ max_line_bytes
      → lines_of max_line_bytes so_far (chunk ++ tail) ending
        ≡ resumed
            (length so_far + length (split_line chunk).0)
            (so_far ++ (split_line chunk).0)
            (split_line chunk).1
  unfolding split_line lines_of
  lines_of-split so_far [] short =
      let fit : ltb max_line_bytes (length so_far + 0) ≡ false = ground arith in
      rw (fit, append-[] so_far, split_line) refl
  lines_of-split so_far (b ∷ bs) short = elim (Bool-cases (b == newline)) [
    | inl e ↦
        let fit : ltb max_line_bytes (length so_far + 0) ≡ false = ground arith in
        rw (e, fit, append-[] so_far, split_line, lines_of) refl
    | inr e ↦ elim (Bool-cases (ltb max_line_bytes (suc (length so_far)))) [
      | inl long ↦
          let longer : ltb max_line_bytes (length so_far + suc (length (split_line bs).0)) ≡ true =
            ground (arith, long) in
          rw (e, long, longer, split_line, lines_of) refl
      | inr fit ↦
          let grown : length (so_far ++ b ∷ []) ≡ suc (length so_far) =
            omega (arith, length-append so_far (b ∷ [])) in
          let rest = lines_of-split (so_far ++ b ∷ []) bs (ground (arith, fit, grown)) in
          let same =
            resumed-same (length (so_far ++ b ∷ []) + length (split_line bs).0)
              (length so_far + suc (length (split_line bs).0))
              ((so_far ++ (b ∷ [])) ++ (split_line bs).0) (so_far ++ (b ∷ (split_line bs).0))
              (split_line bs).1 (omega (arith, grown)) (snoc-append so_far b (split_line bs).0) in
          rw (e, fit, split_line, lines_of) (rest ∙ same)
    ]
  ]

fits-long :
    (maximum m n : ℕ) → maximum ≤ usize_max → fits maximum m n ≡ false → ltb maximum (m + n) ≡ true
fits-long maximum m n small bad = ground (arith, small, bad)

fits-short : (maximum m n : ℕ) → fits maximum m n ≡ true → m + n ≤ maximum
fits-short maximum m n good = ground (arith, good)

kept-short :
    (maximum : ℕ) (xs ys : List ℕ) (rest : Option (List ℕ))
    → length xs + length ys ≤ maximum
    → length (kept (xs ++ ys) rest) ≤ maximum
kept-short maximum xs ys none short = omega (arith, short, length-append xs ys)
kept-short maximum xs ys (some rest) short = omega arith

module _ (try_reserve : ℕ → ℕ → Bool) (max_line_bytes : ℕ) (within : max_line_bytes ≤ usize_max)
    (plenty : (n added : ℕ) → try_reserve n added ≡ true) where
  -- One round, over what is buffered.
  chunk-lines :
      (fuel b : ℕ) (bs : List ℕ) (later : List Reading) (so_far : List ℕ) (observed : ℕ)
      → length so_far ≤ max_line_bytes
      → ((counted : ℕ) (next : List ℕ)
          → length next ≤ max_line_bytes
          → (reader_worker try_reserve max_line_bytes fuel later
              (buffered (split_line (b ∷ bs)).1)
              next
              counted).0
            ≡ lines_of max_line_bytes next
                (buffered (split_line (b ∷ bs)).1 ++ (carried later).0)
                (carried later).1)
      → (reader_worker try_reserve max_line_bytes (suc fuel) later (b ∷ bs) so_far observed).0
        ≡ lines_of max_line_bytes so_far ((b ∷ bs) ++ (carried later).0) (carried later).1
  unfolding reader_worker fill_buf
  chunk-lines fuel b bs later so_far observed short goes =
      let content = (split_line (b ∷ bs)).0 in
      let rest = (split_line (b ∷ bs)).1 in
      let spec =
        lines_of-split max_line_bytes (carried later).0 (carried later).1 so_far (b ∷ bs) short in
      let room = plenty (length so_far) (length content) in
      elim (Bool-cases (fits max_line_bytes (length so_far) (length content))) [
        | inr bad ↦
            let long = fits-long max_line_bytes (length so_far) (length content) within bad in
            rw (bad, reader_worker, spec, long) refl
        | inl good ↦
            let fit = fits-short max_line_bytes (length so_far) (length content) good in
            let small : ltb max_line_bytes (length so_far + length content) ≡ false =
              ground (arith, fit) in
            let counted = saturating_add u64_max observed (consumed content rest) in
            let behind =
              goes counted (kept (so_far ++ content) rest)
                (kept-short max_line_bytes so_far content rest fit) in
            rw (good, room, reader_worker, spec, small)
              (ap (λ events. emitted (so_far ++ content) rest ++ events) behind)
      ]

  -- The worker reports what a reading of its bytes one by one reports, however the pipe cuts them
  -- into reads: each line that a newline ends and that is within the limit, up to the first of a
  -- longer line, the end of the pipe, or an error. This is so from a line that is within the
  -- limit, with fuel beyond the buffered bytes and the rounds of the reads, so that the loop
  -- ends; the limit is taken to be a `usize`, and memory to suffice.
  pub reader_worker-lines_of :
      (fuel : ℕ) (reads : List Reading) (buffer so_far : List ℕ) (observed : ℕ)
      → length so_far ≤ max_line_bytes
      → suc (length buffer + rounds_of reads) ≤ fuel
      → (reader_worker try_reserve max_line_bytes fuel reads buffer so_far observed).0
        ≡ lines_of max_line_bytes so_far (buffer ++ (carried reads).0) (carried reads).1
  unfolding reader_worker fill_buf carried rounds_of lines_of
  reader_worker-lines_of zero reads buffer so_far observed short enough =
      absurd (omega (arith, enough))
  reader_worker-lines_of (suc n) reads (b ∷ bs) so_far observed short enough =
      chunk-lines n b bs reads so_far observed short (λ counted next fit.
        reader_worker-lines_of n reads (buffered (split_line (b ∷ bs)).1) next counted fit
          (omega (arith, enough, split_line-shorter b bs)))
  reader_worker-lines_of (suc n) [] [] so_far observed short enough = refl
  reader_worker-lines_of (suc n) (err kind ∷ rs) [] so_far observed short enough = refl
  reader_worker-lines_of (suc n) (ok [] ∷ rs) [] so_far observed short enough = refl
  reader_worker-lines_of (suc n) (ok (b ∷ bs) ∷ rs) [] so_far observed short enough =
      chunk-lines n b bs rs so_far observed short (λ counted next fit.
        reader_worker-lines_of n rs (buffered (split_line (b ∷ bs)).1) next counted fit
          (omega (arith, enough, split_line-shorter b bs)))
