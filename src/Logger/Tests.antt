-- ===== src/Logger/Tests.antt =====
-- The theorems about src/logger.rs, at short runs.
use transmitic_core.Common.{
  ◌+◌, ◌≤◌, ◌≡◌, refl, true, false, none, some, List, [], ◌∷◌, length, take, arith,
}
use transmitic_core.Logger.{Logger, LogLevel, Disk, new, log_message}
use transmitic_core.Logger.Lines.{Entry, IsOpen, log_all, passed, log_all-newest}
use transmitic_core.Logger.Bounds.{stop, step, logs, turned_on, run-IsBounded, failing_calls}

abbrev disk : Disk
disk = record { failure = none; file_lines = [] }

abbrev fresh : Logger
fresh = new LogLevel.warning true disk

abbrev entries : List Entry
entries = (LogLevel.error, some (b'1' ∷ []), b'x' ∷ []) ∷ (LogLevel.debug, none, b'y' ∷ []) ∷ []

fresh-IsOpen : IsOpen fresh
unfolding new
fresh-IsOpen = refl

fresh_lines : length fresh.log_lines ≤ 1000
unfolding new
fresh_lines = omega arith

log_all-newest_example :
    (log_all fresh entries).log_lines
    ≡ take 1000 (passed fresh.active_log_level entries fresh.log_lines)
log_all-newest_example = log_all-newest fresh entries fresh-IsOpen fresh_lines

abbrev logged : Logger
logged = log_message fresh LogLevel.error none (b'x' ∷ [])

run-IsBounded_example :
    (length logged.log_lines ≤ 1000)
    × (length logged.disk.file_lines ≤ 3000)
    × (logged.log_file_write_count ≤ 2000)
run-IsBounded_example =
    run-IsBounded LogLevel.warning true logged
      (step stop (logs fresh LogLevel.error none (b'x' ∷ [])))

abbrev shut : Logger
shut = new LogLevel.warning false (record { failure = some (b'e' ∷ []); file_lines = [] })

shut_failure : shut.disk.failure ≡ some (b'e' ∷ [])
unfolding new
shut_failure = refl

failing_calls_example : length (turned_on 2000 shut).log_lines ≡ 2000 + length shut.log_lines
failing_calls_example = failing_calls 2000 shut (b'e' ∷ []) shut_failure
