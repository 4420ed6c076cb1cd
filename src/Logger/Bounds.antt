-- ===== src/Logger/Bounds.antt =====
-- How many lines src/logger.rs keeps, in memory and in the file.
use transmitic_core.Common.{
  ℕ, zero, suc, ◌+◌, ◌≤◌, ◌≡◌, refl, ap, Bool, true, false, Option, none, some, List, [], ◌∷◌, ltb,
  if◌then◌else◌, length, length-append, length-take, arith,
}
use transmitic_core.Logger.{
  Logger, LogLevel, new, log_message, log_line, as_u8, log_to_file, set_log_level,
  set_is_file_logging, write_all_to_log, reversed,
}
use transmitic_core.Logger.Lines.{IsOpen, with_line, with_line-lines}

-- A call that changes the logger.
pub data Step : Logger → Logger → Type 0 where
  logs :
      (l : Logger) (level : LogLevel) (secs : Option (List ℕ)) (message : List ℕ)
      → Step l (log_message l level secs message)
  sets_level : (l : Logger) (level : LogLevel) → Step l (set_log_level l level)
  sets_file : (l : Logger) (state : Bool) → Step l (set_is_file_logging l state)

-- File logging is turned on `n` times in a row.
unfoldable pub turned_on : ℕ → Logger → Logger
turned_on zero l = l
turned_on (suc n) l = turned_on n (set_is_file_logging l true)

pub data Steps : Logger → Logger → Type 0 where
  stop : {l : Logger} → Steps l l
  step : {l l' l'' : Logger} → Steps l l' → Step l' l'' → Steps l l''

-- With a file that opens: a thousand lines in memory, and in the file those of the last rotation
-- and one for each write since.
pub record IsBounded (l : Logger) : Type 0 where
  pub opened : IsOpen l
  pub lines : length l.log_lines ≤ 1000
  pub count : l.log_file_write_count ≤ 2000
  pub file : length l.disk.file_lines ≤ 1000 + l.log_file_write_count

length-reversed : (xs : List (List ℕ)) → length (reversed xs) ≡ length xs
unfolding reversed
length-reversed [] = refl
length-reversed (x ∷ xs) = omega (arith, length-append (reversed xs) (x ∷ []), length-reversed xs)

new-IsBounded :
    (level : LogLevel) (state : Bool)
    → IsBounded (new level state (record { failure = none; file_lines = [] }))
unfolding new
new-IsBounded level state = record {
  opened = refl;
  lines = omega arith;
  count = omega arith;
  file = omega arith;
}

log_to_file-IsBounded : (l : Logger) (line : List ℕ) → IsBounded l → IsBounded (log_to_file l line)
unfolding log_to_file write_all_to_log
log_to_file-IsBounded l line b = record {
  opened = ground (arith, b.opened);
  lines = ground (arith, b.opened, b.lines);
  count = ground (arith, b.opened, b.count);
  file = ground (
    arith,
    b.opened,
    b.lines,
    b.file,
    length-reversed l.log_lines,
    length-append l.disk.file_lines (line ∷ []),
  );
}

write_all_to_log-IsBounded : (l : Logger) → IsBounded l → IsBounded (write_all_to_log l)
unfolding write_all_to_log
write_all_to_log-IsBounded l b = record {
  opened = ground (arith, b.opened);
  lines = ground (arith, b.opened, b.lines);
  count = ground (arith, b.opened, b.count);
  file = ground (arith, b.opened, b.lines, b.file, length-reversed l.log_lines);
}

with_line-IsBounded :
    (l : Logger) (level : LogLevel) (secs : Option (List ℕ)) (message : List ℕ)
    → IsBounded l
    → IsBounded (with_line l level secs message)
with_line-IsBounded l level secs message b = record {
  opened = b.opened;
  lines =
      omega (arith, ap length (with_line-lines l level secs message), length-take 999 l.log_lines);
  count = b.count;
  file = b.file;
}

-- The two tests of `log_message`.
logged :
    (low on : Bool) {l0 l1 l2 : Logger}
    → IsBounded l0
    → IsBounded l1
    → IsBounded l2
    → IsBounded (if low then l0 else if on then l2 else l1)
logged true on b0 b1 b2 = b0
logged false true b0 b1 b2 = b2
logged false false b0 b1 b2 = b1

Step-IsBounded : {l l' : Logger} → Step l l' → IsBounded l → IsBounded l'
unfolding log_message set_log_level set_is_file_logging
Step-IsBounded (logs l level secs message) b =
    let line = log_line level secs message in
    let b' = with_line-IsBounded l level secs message b in
    logged (ltb (as_u8 level) (as_u8 l.active_log_level)) l.is_log_to_file b b'
      (log_to_file-IsBounded (with_line l level secs message) line b')
Step-IsBounded (sets_level l level) b = record {
  opened = b.opened;
  lines = b.lines;
  count = b.count;
  file = b.file;
}
Step-IsBounded (sets_file l true) b =
    write_all_to_log-IsBounded (record l { is_log_to_file = true })
      (record { opened = b.opened; lines = b.lines; count = b.count; file = b.file })
Step-IsBounded (sets_file l false) b = record {
  opened = b.opened;
  lines = b.lines;
  count = b.count;
  file = b.file;
}

-- From a new logger whose file is empty and can be opened, every run of messages and settings
-- keeps at most a thousand lines in memory and at most three thousand lines in the file, and
-- the count of writes since the last rotation stays at most two thousand.
pub run-IsBounded :
    (level : LogLevel) (state : Bool) (l : Logger)
    → Steps (new level state (record { failure = none; file_lines = [] })) l
    → (length l.log_lines ≤ 1000)
      × (length l.disk.file_lines ≤ 3000)
      × (l.log_file_write_count ≤ 2000)
run-IsBounded level state l steps =
    let b = kept steps (new-IsBounded level state) in
    (b.lines, omega (arith, b.file, b.count), b.count)
  where
    kept : {l l' : Logger} → Steps l l' → IsBounded l → IsBounded l'
    kept stop b = b
    kept (step before last) b = Step-IsBounded last (kept before b)

-- Where the file cannot be opened, every call that turns file logging on adds a line and takes
-- none away: after `n` calls in a row there are `n` lines more.
pub failing_calls :
    (n : ℕ) (l : Logger) (e : List ℕ)
    → l.disk.failure ≡ some e
    → length (turned_on n l).log_lines ≡ n + length l.log_lines
unfolding turned_on set_is_file_logging write_all_to_log
failing_calls zero l e h = omega arith
failing_calls (suc n) l e h = ground (arith, h, failing_calls n (set_is_file_logging l true) e)
