-- ===== src/Process/Reader.antt =====
-- The worker that reads the lines of the process's standard output.
use weregopher.Base.{
  ℕ, zero, suc, ◌+◌, Bool, false, not, Option, none, some, List, [], ◌∷◌, ◌++◌, ltb, ◌==◌,
  if◌then◌else◌, length, Result, ok, err, u64_max, usize_max, checked_add, saturating_add,
}
use weregopher.Process.Worker.{
  ReaderEvent, line, reader_eof, line_too_long, unterminated_line, allocation_failed, reader_failed,
}
pub mod Lines

-- What one read of the pipe gives: some bytes, none at its end, or an `io::ErrorKind`.
abbrev pub Reading : Type 0
Reading = Result ℕ (List ℕ)

-- `fill_buf` gives what is still buffered, and else reads. A pipe without more reads has ended.
unfoldable pub fill_buf : List ℕ → List Reading → Reading × List Reading
fill_buf (b ∷ bs) reads = (ok (b ∷ bs), reads)
fill_buf [] [] = (ok [], [])
fill_buf [] (r ∷ rs) = (r, rs)

abbrev pub newline : ℕ
newline = 10

-- The bytes up to a newline, and what is behind it where there is one.
unfoldable pub split_line : List ℕ → List ℕ × Option (List ℕ)
split_line [] = ([], none)
split_line (b ∷ bs) =
    let (content, rest) = split_line bs in
    if b == newline then ([], some bs) else (b ∷ content, rest)

abbrev pub consumed : List ℕ → Option (List ℕ) → ℕ
consumed content none = length content
consumed content (some rest) = length content + 1

abbrev pub buffered : Option (List ℕ) → List ℕ
buffered none = []
buffered (some rest) = rest

abbrev pub kept : List ℕ → Option (List ℕ) → List ℕ
kept so_far none = so_far
kept so_far (some rest) = []

abbrev pub emitted : List ℕ → Option (List ℕ) → List ReaderEvent
emitted next none = []
emitted next (some rest) = line next ∷ []

abbrev pub end_event : List ℕ → ReaderEvent
end_event [] = reader_eof
end_event (b ∷ bs) = unterminated_line

-- Whether the line so far may grow by the content.
abbrev pub fits : ℕ → ℕ → ℕ → Bool
fits max_line_bytes length_so_far added = elim (checked_add usize_max length_so_far added) [
  | none ↦ false
  | some next_length ↦ not (ltb max_line_bytes next_length)
]

-- `try_reserve_exact` of a line of one length, for as much more.
module _ (try_reserve : ℕ → ℕ → Bool) (max_line_bytes : ℕ) where
  -- The worker's loop, on fuel: the events that it sends, and the bytes that it counts. The
  -- receiver is taken to be held, since nobody sees what is sent once it is gone.
  unfoldable pub reader_worker : ℕ → List Reading → List ℕ → List ℕ → ℕ → List ReaderEvent × ℕ
  unfolding fill_buf split_line
  reader_worker zero reads buffer so_far observed = ([], observed)
  reader_worker (suc fuel) reads buffer so_far observed =
      let (available, later) = fill_buf buffer reads in
      elim available [
        | err kind ↦ (reader_failed kind ∷ [], observed)
        | ok [] ↦ (end_event so_far ∷ [], observed)
        | ok (b ∷ bs) ↦
            let (content, rest) = split_line (b ∷ bs) in
            let counted = saturating_add u64_max observed (consumed content rest) in
            let next = so_far ++ content in
            let (events, total) =
              reader_worker fuel later (buffered rest) (kept next rest) counted in
            if not (fits max_line_bytes (length so_far) (length content))
            then (line_too_long ∷ [], counted)
            else if not (try_reserve (length so_far) (length content))
            then (allocation_failed ∷ [], counted)
            else (emitted next rest ++ events, total)
      ]
