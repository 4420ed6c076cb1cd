-- ===== src/Logger.antt =====
-- The log: src/logger.rs. The lines kept in memory, newest first, and the file.
--
-- The file system is the state `Disk`: whether the file opens, with the text of the error if it
-- does not, and the lines that it holds, oldest first. A line goes out whole. The clock is an
-- argument: the seconds since the epoch as decimal text, or `none` where the clock stands
-- before it. Printing to the console is left out.
pub mod Texts
pub mod Lines
pub mod Bounds
mod Tests
use transmitic_core.Common.{
  ℕ, zero, suc, ◌+◌, ◌*◌, Bool, true, false, Option, none, some, List, [], ◌∷◌, ◌++◌, ltb, leb,
  if◌then◌else◌, length,
}
use Texts.{
  critical_tag, error_tag, warning_tag, info_tag, debug_tag, time_error, bar, append_failed,
  truncate_failed,
}

abbrev pub log_messages_count : ℕ
log_messages_count = 1000

abbrev pub log_file_rotate_count : ℕ
log_file_rotate_count = log_messages_count * 2

pub data LogLevel : Type 0 where
  critical error warning info debug : LogLevel

unfoldable pub as_u8 : LogLevel → ℕ
as_u8 LogLevel.critical = 50
as_u8 LogLevel.error = 40
as_u8 LogLevel.warning = 30
as_u8 LogLevel.info = 20
as_u8 LogLevel.debug = 10

pub record Disk : Type 0 where
  pub failure : Option (List ℕ)
  pub file_lines : List (List ℕ)

pub record Logger : Type 0 where
  pub log_lines : List (List ℕ)
  pub active_log_level : LogLevel
  pub is_log_to_file : Bool
  pub log_file_write_count : ℕ
  pub disk : Disk

-- `Logger::new`, on the disk as it is once the old file is removed.
unfoldable pub new : LogLevel → Bool → Disk → Logger
new log_level is_log_to_file disk = record {
  log_lines = [];
  active_log_level = log_level;
  is_log_to_file = is_log_to_file;
  log_file_write_count = 0;
  disk = disk;
}

unfoldable pub set_log_level : Logger → LogLevel → Logger
set_log_level l log_level = record l { active_log_level = log_level }

-- The lines, oldest first.
unfoldable pub reversed : List (List ℕ) → List (List ℕ)
reversed [] = []
reversed (x ∷ xs) = reversed xs ++ (x ∷ [])

unfoldable pub write_all_to_log : Logger → Logger
write_all_to_log l = elim l.disk.failure [
  | none ↦ record l { disk = record (l.disk) { file_lines = reversed l.log_lines } }
  | some e ↦ record l { log_lines = (truncate_failed ++ e) ∷ l.log_lines }
]

unfoldable pub set_is_file_logging : Logger → Bool → Logger
set_is_file_logging l state =
    let l' = record l { is_log_to_file = state } in if state then write_all_to_log l' else l'

unfoldable pub log_to_file : Logger → List ℕ → Logger
log_to_file l message =
    if leb log_file_rotate_count l.log_file_write_count
    then record (write_all_to_log l) { log_file_write_count = 0 }
    else elim l.disk.failure [
      | none ↦ record l {
        disk = record (l.disk) { file_lines = l.disk.file_lines ++ (message ∷ []) };
        log_file_write_count = l.log_file_write_count + 1;
      }
      | some e ↦ record l {
        log_lines = (append_failed ++ e) ∷ l.log_lines;
        log_file_write_count = l.log_file_write_count + 1;
      }
    ]

unfoldable pub pop_back : List (List ℕ) → List (List ℕ)
pop_back [] = []
pop_back (x ∷ []) = []
pop_back (x ∷ y ∷ ys) = x ∷ pop_back (y ∷ ys)

-- The loop that makes room, on fuel; each round takes a line off.
unfoldable pub make_room : ℕ → List (List ℕ) → List (List ℕ)
make_room zero lines = lines
make_room (suc fuel) lines =
    let rest = make_room fuel (pop_back lines) in
    if leb log_messages_count (length lines) then rest else lines

unfoldable pub tag : LogLevel → List ℕ
tag LogLevel.critical = critical_tag
tag LogLevel.error = error_tag
tag LogLevel.warning = warning_tag
tag LogLevel.info = info_tag
tag LogLevel.debug = debug_tag

-- `{} {} |  {}`
unfoldable pub log_line : LogLevel → Option (List ℕ) → List ℕ → List ℕ
log_line log_level secs message =
    let time_string : List ℕ = elim secs [ some n ↦ n | none ↦ time_error ] in
    tag log_level ++ (b' ' ∷ time_string) ++ bar ++ message

-- The `secs` are what the clock says.
unfoldable pub log_message : Logger → LogLevel → Option (List ℕ) → List ℕ → Logger
log_message l log_level secs message =
    if ltb (as_u8 log_level) (as_u8 l.active_log_level)
    then l
    else (let line = log_line log_level secs message in
        let kept = make_room (length l.log_lines) l.log_lines in
        let l' = record l { log_lines = line ∷ kept } in
        if l.is_log_to_file then log_to_file l' line else l')
