-- ===== src/Orchestrator/Logs.antt =====
-- internal/orchestrator/logs.go: the collector of log lines, which is handed a container's output in
-- chunks of any size.
pub mod Chunks
use gh_runner.Prelude.{
  ℕ, Bool, true, false, ◌&&◌, ◌||◌, not, Option, none, some, List, [], ◌∷◌, ◌++◌, ◌==◌,
  if◌then◌else◌,
}
use gh_runner.Prelude.Text.{GoString, is_empty}

pub record LogEntry : Type 0 where
  pub timestamp : GoString
  pub stream : GoString
  pub content : GoString

-- Package time: the two layouts that are tried, the clock and the output in UTC.
pub record TimeLibrary : Type 1 where
  pub World : Type 0
  pub Time : Type 0
  pub now : World → Time × World
  pub parse_rfc3339_nano : GoString → Option Time
  pub parse_rfc3339 : GoString → Option Time
  pub format_utc : Time → GoString

-- strings.TrimRight(line, "\r\n").
unfoldable pub trim_line_end : GoString → GoString
trim_line_end [] = []
trim_line_end (a ∷ s) =
    let rest = trim_line_end s in if is_empty rest && (a == 13 || a == 10) then [] else a ∷ rest

-- strings.SplitN(raw, " ", 2): the two parts, or `none` for one.
before_space : ℕ → Option (GoString × GoString) → Option (GoString × GoString)
before_space a none = none
before_space a (some (word, rest)) = some (a ∷ word, rest)

unfoldable pub split_space : GoString → Option (GoString × GoString)
unfolding before_space
split_space [] = none
split_space (a ∷ s) =
    let rest = split_space s in if a == 32 then some ([], s) else before_space a rest

-- The loop on ReadBytes('\n'): the complete lines of the buffer, each with its end, and what is
-- left of it.
unfoldable pub attach : ℕ → List GoString × GoString → List GoString × GoString
attach a ([], rest) = ([], a ∷ rest)
attach a (line ∷ lines, rest) = ((a ∷ line) ∷ lines, rest)

unfoldable pub end_line : ℕ → List GoString × GoString → List GoString × GoString
end_line a (lines, rest) = ((a ∷ []) ∷ lines, rest)

unfoldable pub read_lines : GoString → List GoString × GoString
unfolding attach end_line
read_lines [] = ([], [])
read_lines (a ∷ s) = let rest = read_lines s in if a == 10 then end_line a rest else attach a rest

-- The lines collected so far and the incomplete one.
pub record Collector : Type 0 where
  pub lines : List LogEntry
  pub buf : GoString

module _ (lib : TimeLibrary) (stream : GoString) where
  open lib use {World, Time}

  abbrev pub entry : Time → GoString → LogEntry
  entry t content = record { timestamp = lib.format_utc t; stream = stream; content = content }

  or_now : GoString → GoString → Option Time → World → LogEntry × World
  or_now raw rest (some t) w = (entry t rest, w)
  or_now raw rest none w = let (t, w') = lib.now w in (entry t raw, w')

  parse_stamped : GoString → GoString → GoString → Option Time → World → LogEntry × World
  unfolding or_now
  parse_stamped raw stamp rest (some t) w = (entry t rest, w)
  parse_stamped raw stamp rest none w = or_now raw rest (lib.parse_rfc3339 stamp) w

  parse_parts : GoString → Option (GoString × GoString) → World → LogEntry × World
  unfolding parse_stamped or_now
  parse_parts raw none w = or_now raw raw none w
  parse_parts raw (some (stamp, rest)) w =
      parse_stamped raw stamp rest (lib.parse_rfc3339_nano stamp) w

  unfoldable pub parse_log_line : GoString → World → LogEntry × World
  unfolding parse_parts split_space
  parse_log_line raw w = parse_parts raw (split_space raw) w

  -- One line: nothing is recorded for an empty one.
  unfoldable pub add_clean : GoString → List LogEntry × World → List LogEntry × World
  unfolding parse_log_line
  add_clean [] (lines, w) = (lines, w)
  add_clean (a ∷ clean) (lines, w) =
      let (e, w') = parse_log_line (a ∷ clean) w in (lines ++ e ∷ [], w')

  unfoldable pub add_line : GoString → List LogEntry × World → List LogEntry × World
  unfolding add_clean trim_line_end
  add_line line acc = add_clean (trim_line_end line) acc

  unfoldable pub add_lines : List GoString → List LogEntry × World → List LogEntry × World
  unfolding add_line
  add_lines [] acc = acc
  add_lines (line ∷ lines) acc = add_lines lines (add_line line acc)

  unfoldable pub write : GoString → Collector × World → Collector × World
  unfolding read_lines add_lines
  write p (c, w) =
      let (complete, rest) = read_lines (c.buf ++ p) in
      let (lines, w') = add_lines complete (c.lines, w) in
      (record { lines = lines; buf = rest }, w')

  unfoldable pub flush : Collector × World → Collector × World
  unfolding add_line
  flush (c, w) =
      let (lines, w') = add_line c.buf (c.lines, w) in
      if is_empty c.buf then (c, w) else (record { lines = lines; buf = [] }, w')

  -- The chunks that the demultiplexer hands over, in order.
  unfoldable pub write_all : List GoString → Collector × World → Collector × World
  unfolding write
  write_all [] acc = acc
  write_all (p ∷ ps) acc = write_all ps (write p acc)
