-- ===== src/EventLog/Logger.antt =====
-- The files of backend/src/jsonl_logger.cpp: `current_path` and the numbered ones, as their texts.
-- The file system does what it is asked to.
use multi_radio.Common.{
  ℕ, zero, suc, Bool, true, not, Option, none, some, List, [], ◌∷◌, ◌++◌, ltb, ◌==◌, if◌then◌else◌,
  length, Bytes,
}

pub record JsonlLogger : Type 0 where
  pub max_bytes : ℕ
  pub max_files : ℕ
  pub is_open : Bool
  pub current : Option Bytes
  pub numbered : ℕ → Option Bytes

abbrev pub Files : Type 0
Files = ℕ → Option Bytes

abbrev pub put_file : ℕ → Option Bytes → Files → Files
put_file i text files = λ j. if j == i then text else files j

abbrev pub text_of : Option Bytes → Bytes
text_of none = []
text_of (some text) = text

-- `if (exists(older)) rename(older, newer)`.
unfoldable pub move_file : ℕ → ℕ → Option Bytes → Files → Files
move_file older newer none files = files
move_file older newer (some text) files = put_file older none (put_file newer (some text) files)

-- The loop, with `i` from the number given down to 1.
unfoldable pub shift_files : ℕ → ℕ → Files → Files
shift_files max_files zero files = files
shift_files max_files (suc i) files =
    let removed = if suc i == max_files then put_file (suc i) none files else files in
    shift_files max_files i (move_file i (suc i) (removed i) removed)

-- What the write position is past: the end of the text.
unfoldable pub rotate_if_needed : JsonlLogger → JsonlLogger
rotate_if_needed l =
    let shifted = shift_files l.max_files l.max_files l.numbered in
    if not l.is_open
    then l
    else if ltb (length (text_of l.current)) l.max_bytes
    then l
    else record l { current = some []; numbered = put_file 0 l.current shifted }

unfoldable pub ensure_open : JsonlLogger → JsonlLogger
ensure_open l =
    if l.is_open then l else record l { is_open = true; current = some (text_of l.current) }

-- `LogEvent` and `LogDecodedMessage`, of the text that they write in front of the line feed.
unfoldable pub log_line : Bytes → JsonlLogger → JsonlLogger
log_line json l =
    let open_log = ensure_open l in
    rotate_if_needed
      (record open_log { current = some (text_of open_log.current ++ (json ++ (10 ∷ []))) })

unfoldable pub log_all : List Bytes → JsonlLogger → JsonlLogger
log_all [] l = l
log_all (json ∷ lines) l = log_all lines (log_line json l)
