-- ===== src/Orchestrator/Logs/Chunks.antt =====
-- internal/orchestrator/logs.go: the collector and the cuts of the output.
use gh_runner.Prelude.{
  ℕ, ◌≡◌, refl, sym, ap, ◌∙◌, true, false, List, [], ◌∷◌, ◌++◌, ◌==◌, Bool-cases, inl, inr, arith,
  map,
}
use gh_runner.Prelude.Text.{GoString, split, add_byte}
use gh_runner.Orchestrator.Logs.{
  LogEntry, TimeLibrary, trim_line_end, attach, end_line, read_lines, Collector, add_clean,
  add_line, add_lines, write, flush, write_all,
}

-- The lines of a text, then of another, from the rest of the first.
abbrev resumed : List GoString × GoString → GoString → List GoString × GoString
resumed (lines, rest) t = let (more, last) = read_lines (rest ++ t) in (lines ++ more, last)

attach-resumed :
    (a : ℕ) (t : GoString) (r : List GoString × GoString)
    → (a == 10) ≡ false
    → attach a (resumed r t) ≡ resumed (attach a r) t
unfolding attach read_lines
attach-resumed a t ([], rest) other = rw other
attach-resumed a t (line ∷ lines, rest) other = refl

read_lines-append : (s t : GoString) → read_lines (s ++ t) ≡ resumed (read_lines s) t
unfolding read_lines end_line
read_lines-append [] t = refl
read_lines-append (a ∷ s) t = elim (Bool-cases (a == 10)) [
  | inl newline ↦ rw (newline, read_lines-append s t) refl
  | inr other ↦ rw (other, read_lines-append s t) (attach-resumed a t (read_lines s) other)
]

-- All the lines of a text, the incomplete one last.
abbrev all_lines : List GoString × GoString → List GoString
all_lines (lines, rest) = lines ++ rest ∷ []

trim_line_end-cons :
    (a : ℕ) (s t : GoString)
    → trim_line_end s ≡ trim_line_end t
    → trim_line_end (a ∷ s) ≡ trim_line_end (a ∷ t)
unfolding trim_line_end
trim_line_end-cons a s t h = rw h

attach-add_byte :
    (a : ℕ) (r : List GoString × GoString) (parts : List GoString)
    → map trim_line_end (all_lines r) ≡ map trim_line_end parts
    → map trim_line_end (all_lines (attach a r)) ≡ map trim_line_end (add_byte a parts)
unfolding attach add_byte
attach-add_byte a ([], rest) [] h = cc
attach-add_byte a (line ∷ lines, rest) [] h = cc
attach-add_byte a ([], rest) (part ∷ parts) h =
    let same : trim_line_end rest ≡ trim_line_end part = cc in
    let more : [] ≡ map trim_line_end parts = cc in
    let first : trim_line_end (a ∷ rest) ≡ trim_line_end (a ∷ part) =
      trim_line_end-cons a rest part same in
    cc
attach-add_byte a (line ∷ lines, rest) (part ∷ parts) h =
    let same : trim_line_end line ≡ trim_line_end part = cc in
    let more : map trim_line_end (lines ++ rest ∷ []) ≡ map trim_line_end parts = cc in
    let first : trim_line_end (a ∷ line) ≡ trim_line_end (a ∷ part) =
      trim_line_end-cons a line part same in
    cc

trimmed_empty : trim_line_end [] ≡ []
unfolding trim_line_end
trimmed_empty = refl

newline_trimmed : (a : ℕ) → (a == 10) ≡ true → trim_line_end (a ∷ []) ≡ []
unfolding trim_line_end
newline_trimmed a h = ground arith

-- The line ends aside, these are the parts between the newlines.
read_lines-split :
    (s : GoString) → map trim_line_end (all_lines (read_lines s)) ≡ map trim_line_end (split 10 s)
unfolding read_lines split end_line
read_lines-split [] = refl
read_lines-split (a ∷ s) = elim (Bool-cases (a == 10)) [
  | inl newline ↦
      rw (newline, newline_trimmed a newline, trimmed_empty)
        (ap (λ ls. [] ∷ ls) (read_lines-split s))
  | inr other ↦ rw (other) (attach-add_byte a (read_lines s) (split 10 s) (read_lines-split s))
]

abbrev pub concat : List GoString → GoString
concat [] = []
concat (p ∷ ps) = p ++ concat ps

-- A collector with nothing left over.
abbrev pub closed : {W : Type 0} → List LogEntry × W → Collector × W
closed (lines, w) = (record { lines = lines; buf = [] }, w)

module _ (lib : TimeLibrary) (stream : GoString) where
  -- Lines count only up to their ends.
  add_lines-trimmed :
      (ls ms : List GoString) (acc : List LogEntry × lib.World)
      → map trim_line_end ls ≡ map trim_line_end ms
      → add_lines lib stream ls acc ≡ add_lines lib stream ms acc
  unfolding add_lines add_line
  add_lines-trimmed [] [] acc h = refl
  add_lines-trimmed [] (m ∷ ms) acc h = cc
  add_lines-trimmed (l ∷ ls) [] acc h = cc
  add_lines-trimmed (l ∷ ls) (m ∷ ms) acc h =
      let same : trim_line_end l ≡ trim_line_end m = cc in
      rw same (add_lines-trimmed ls ms (add_clean lib stream (trim_line_end m) acc) cc)

  add_lines-append :
      (ls ms : List GoString) (acc : List LogEntry × lib.World)
      → add_lines lib stream (ls ++ ms) acc ≡ add_lines lib stream ms (add_lines lib stream ls acc)
  unfolding add_lines
  add_lines-append [] ms acc = refl
  add_lines-append (l ∷ ls) ms acc = add_lines-append ls ms (add_line lib stream l acc)

  assoc : (s t u : GoString) → s ++ (t ++ u) ≡ (s ++ t) ++ u
  assoc [] t u = refl
  assoc (a ∷ s) t u = ap (λ z. a ∷ z) (assoc s t u)

  nil_right : (s : GoString) → s ++ [] ≡ s
  nil_right [] = refl
  nil_right (a ∷ s) = ap (λ z. a ∷ z) (nil_right s)

  -- Two chunks are as good as one.
  write-append :
      (p q : GoString) (acc : Collector × lib.World)
      → write lib stream (p ++ q) acc ≡ write lib stream q (write lib stream p acc)
  unfolding write
  write-append p q (c, w) =
      rw
        (
          assoc c.buf p q,
          read_lines-append (c.buf ++ p) q,
          add_lines-append (read_lines (c.buf ++ p)).0
              (read_lines ((read_lines (c.buf ++ p)).1 ++ q)).0 (c.lines, w),
        )
        refl

  write_all-concat :
      (p : GoString) (ps : List GoString) (acc : Collector × lib.World)
      → write_all lib stream (p ∷ ps) acc ≡ write lib stream (p ++ concat ps) acc
  unfolding write_all
  write_all-concat p [] acc = rw (nil_right p) refl
  write_all-concat p (q ∷ qs) acc =
      write_all-concat q qs (write lib stream p acc) ∙ sym (write-append p (q ++ concat qs) acc)

  flush-closed :
      (lines : List LogEntry) (buf : GoString) (w : lib.World)
      → flush lib stream (record { lines = lines; buf = buf }, w)
        ≡ closed (add_line lib stream buf (lines, w))
  unfolding flush add_line trim_line_end add_clean
  flush-closed lines [] w = refl
  flush-closed lines (a ∷ s) w = refl

  -- One chunk and a flush.
  flush-write :
      (s : GoString) (lines : List LogEntry) (w : lib.World)
      → flush lib stream (write lib stream s (record { lines = lines; buf = [] }, w))
        ≡ closed (add_lines lib stream (split 10 s) (lines, w))
  unfolding write
  flush-write s lines w =
      let (complete, rest) = read_lines s in
      let acc : List LogEntry × lib.World = add_lines lib stream complete (lines, w) in
      flush-closed acc.0 rest acc.1
      ∙ ap closed (
          sym (add_lines-append complete (rest ∷ []) (lines, w))
          ∙ add_lines-trimmed (all_lines (read_lines s)) (split 10 s) (lines, w)
              (read_lines-split s))

flush_nothing :
    (lib : TimeLibrary) (stream : GoString) (lines : List LogEntry) (w : lib.World)
    → flush lib stream (closed (lines, w)) ≡ closed (add_lines lib stream (split 10 []) (lines, w))
unfolding flush split add_lines add_line trim_line_end add_clean
flush_nothing lib stream lines w = refl

-- However the output is cut into chunks, once they are all written and the collector is flushed, the
-- recorded entries, and the readings of the clock, are those of the parts between the newlines of
-- the whole output, recorded one by one. No part is lost, cut or recorded twice.
pub flush-write_all :
    (lib : TimeLibrary) (stream : GoString) (chunks : List GoString) (lines : List LogEntry)
    (w : lib.World)
    → flush lib stream (write_all lib stream chunks (closed (lines, w)))
      ≡ closed (add_lines lib stream (split 10 (concat chunks)) (lines, w))
unfolding write_all
flush-write_all lib stream [] lines w = flush_nothing lib stream lines w
flush-write_all lib stream (p ∷ ps) lines w =
    rw (write_all-concat lib stream p ps (record { lines = lines; buf = [] }, w))
      (flush-write lib stream (p ++ concat ps) lines w)
