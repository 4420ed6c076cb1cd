-- ===== src/Logger/Lines.antt =====
-- Which lines src/logger.rs keeps in memory over a run of messages.
use transmitic_core.Common.{
  ℕ, zero, suc, ◌≤◌, ◌≡◌, refl, ap, ap₂, sym, ◌∙◌, true, false, Option, none, List, [], ◌∷◌, ◌++◌,
  ltb, leb, if◌then◌else◌, length, length-take, take, arith, Bool-cases, inl, inr,
}
use transmitic_core.Logger.{
  Logger, LogLevel, log_message, log_line, as_u8, make_room, pop_back, log_to_file,
  log_file_rotate_count,
}

length-pop_back : (x : List ℕ) (xs : List (List ℕ)) → length (pop_back (x ∷ xs)) ≡ length xs
unfolding pop_back
length-pop_back x [] = refl
length-pop_back x (y ∷ ys) = ap suc (length-pop_back y ys)

take-pop_back :
    (n : ℕ) (x : List ℕ) (xs : List (List ℕ))
    → n ≤ length xs
    → take n (pop_back (x ∷ xs)) ≡ take n (x ∷ xs)
unfolding pop_back
take-pop_back zero x xs h = refl
take-pop_back (suc n) x [] h = absurd (omega arith)
take-pop_back (suc n) x (y ∷ ys) h = ap (λ l. x ∷ l) (take-pop_back n y ys (omega arith))

take-all : (n : ℕ) (xs : List (List ℕ)) → length xs ≤ n → take n xs ≡ xs
take-all zero [] h = refl
take-all zero (x ∷ xs) h = absurd (omega arith)
take-all (suc n) [] h = refl
take-all (suc n) (x ∷ xs) h = ap (λ l. x ∷ l) (take-all n xs (omega arith))

-- Fuel for each line is enough: the loop leaves the newest 999 lines.
pub make_room-take :
    (fuel : ℕ) (lines : List (List ℕ)) → length lines ≤ fuel → make_room fuel lines ≡ take 999 lines
unfolding make_room
make_room-take zero lines h = sym (take-all 999 lines (omega arith))
make_room-take (suc fuel) [] h = refl
make_room-take (suc fuel) (x ∷ xs) h = elim (Bool-cases (leb 1000 (length (x ∷ xs)))) [
  | inl full ↦ rw full (
      make_room-take fuel (pop_back (x ∷ xs)) (omega (arith, length-pop_back x xs))
      ∙ take-pop_back 999 x xs (ground (arith, full)))
  | inr room ↦ rw room (sym (take-all 999 (x ∷ xs) (ground (arith, room))))
]

-- Cutting the tail of a list first changes nothing.
take_tail : (n m : ℕ) (xs ys : List (List ℕ)) → n ≤ m → take n (xs ++ take m ys) ≡ take n (xs ++ ys)
take_tail zero m xs ys h = refl
take_tail (suc n) zero xs ys h = absurd (omega arith)
take_tail (suc n) (suc m) [] [] h = refl
take_tail (suc n) (suc m) [] (y ∷ ys) h = ap (λ l. y ∷ l) (take_tail n m [] ys (omega arith))
take_tail (suc n) (suc m) (x ∷ xs) ys h = ap (λ l. x ∷ l) (take_tail n (suc m) xs ys (omega arith))

-- A message: its level, the clock and the text.
abbrev pub Entry : Type 0
Entry = LogLevel × Option (List ℕ) × List ℕ

unfoldable pub log_all : Logger → List Entry → Logger
log_all l [] = l
log_all l (e ∷ es) = log_all (log_message l (e.0) (e.1) (e.2)) es

-- The lines of the messages at or above the level, newest first, in front of the old lines.
unfoldable pub passed : LogLevel → List Entry → List (List ℕ) → List (List ℕ)
passed level [] old = old
passed level (e ∷ es) old =
    if leb (as_u8 level) (as_u8 (e.0))
    then passed level es (log_line (e.0) (e.1) (e.2) ∷ old)
    else passed level es old

-- The newest thousand do not depend on more than the newest thousand.
passed_tail :
    (level : LogLevel) (es : List Entry) (xs ys : List (List ℕ))
    → take 1000 xs ≡ take 1000 ys
    → take 1000 (passed level es xs) ≡ take 1000 (passed level es ys)
unfolding passed
passed_tail level [] xs ys h = h
passed_tail level (e ∷ es) xs ys h = elim (Bool-cases (leb (as_u8 level) (as_u8 (e.0)))) [
  | inl up ↦
      rw up (passed_tail level es _ _ (ap (λ l. log_line (e.0) (e.1) (e.2) ∷ l) (shorter xs ys h)))
  | inr down ↦ rw down (passed_tail level es xs ys h)
]
  where
    shorter : (xs ys : List (List ℕ)) → take 1000 xs ≡ take 1000 ys → take 999 xs ≡ take 999 ys
    shorter xs ys h =
        sym (take_tail 999 1000 [] xs (omega arith))
        ∙ ap (take 999) h
        ∙ take_tail 999 1000 [] ys (omega arith)

-- A logger whose file, if it writes one, can be opened.
abbrev pub IsOpen : Logger → Type 0
IsOpen l = l.disk.failure ≡ none

log_to_file-lines :
    (l : Logger) (line : List ℕ) → IsOpen l → (log_to_file l line).log_lines ≡ l.log_lines
unfolding log_to_file transmitic_core.Logger.write_all_to_log
log_to_file-lines l line h = ground (arith, h)

log_to_file-IsOpen : (l : Logger) (line : List ℕ) → IsOpen l → IsOpen (log_to_file l line)
unfolding log_to_file transmitic_core.Logger.write_all_to_log
log_to_file-IsOpen l line h = ground (arith, h)

log_to_file-level :
    (l : Logger) (line : List ℕ) → (log_to_file l line).active_log_level ≡ l.active_log_level
unfolding log_to_file transmitic_core.Logger.write_all_to_log
log_to_file-level l line = ground arith

-- What a message that passes the level does to an open logger.
pub record IsLogged (l l' : Logger) (line : List ℕ) : Type 0 where
  pub lines : l'.log_lines ≡ line ∷ take 999 l.log_lines
  pub opened : IsOpen l'
  pub level : l'.active_log_level ≡ l.active_log_level

module _ (l : Logger) (level : LogLevel) (secs : Option (List ℕ)) (message : List ℕ) where
  -- The logger with the new line, before the file is written.
  abbrev pub with_line : Logger
  with_line = record l {
    log_lines = log_line level secs message ∷ make_room (length l.log_lines) l.log_lines;
  }

  pub with_line-lines : with_line.log_lines ≡ log_line level secs message ∷ take 999 l.log_lines
  with_line-lines =
      ap (λ ls. log_line level secs message ∷ ls)
        (make_room-take (length l.log_lines) l.log_lines (omega arith))

  pub log_message-IsLogged :
      IsOpen l
      → ltb (as_u8 level) (as_u8 l.active_log_level) ≡ false
      → IsLogged l (log_message l level secs message) (log_line level secs message)
  unfolding log_message
  log_message-IsLogged h up = record {
    lines =
        ground
          (arith, up, log_to_file-lines with_line (log_line level secs message) h, with_line-lines);
    opened = ground (arith, up, h, log_to_file-IsOpen with_line (log_line level secs message) h);
    level = ground (arith, up, log_to_file-level with_line (log_line level secs message));
  }

  log_message-below :
      ltb (as_u8 level) (as_u8 l.active_log_level) ≡ true → log_message l level secs message ≡ l
  unfolding log_message
  log_message-below low = ground (arith, low)

-- With a log file that can be opened, or none, any run of messages leaves in memory the newest
-- thousand lines: those of the messages at or above the level, newest first, and then the
-- lines that were there.
pub log_all-newest :
    (l : Logger) (es : List Entry)
    → IsOpen l
    → length l.log_lines ≤ 1000
    → (log_all l es).log_lines ≡ take 1000 (passed l.active_log_level es l.log_lines)
unfolding log_all passed
log_all-newest l [] h n = sym (take-all 1000 l.log_lines n)
log_all-newest l (e ∷ es) h n = elim (Bool-cases (ltb (as_u8 (e.0)) (as_u8 l.active_log_level))) [
  | inl low ↦
      ap (λ k. (log_all k es).log_lines) (log_message-below l (e.0) (e.1) (e.2) low)
      ∙ log_all-newest l es h n
      ∙ ap (take 1000) (sym (below low))
  | inr up ↦
      let logged = log_message-IsLogged l (e.0) (e.1) (e.2) h up in
      log_all-newest (log_message l (e.0) (e.1) (e.2)) es logged.opened (room logged.lines)
      ∙ ap₂ (λ level old. take 1000 (passed level es old)) logged.level logged.lines
      ∙ passed_tail l.active_log_level es _ _ (
          ap (λ ls. log_line (e.0) (e.1) (e.2) ∷ ls)
            (take_tail 999 999 [] l.log_lines (omega arith)))
      ∙ ap (take 1000) (sym (above up))
]
  where
    below :
        ltb (as_u8 (e.0)) (as_u8 l.active_log_level) ≡ true
        → passed l.active_log_level (e ∷ es) l.log_lines ≡ passed l.active_log_level es l.log_lines
    below low = unfold passed in ground (arith, low)

    above :
        ltb (as_u8 (e.0)) (as_u8 l.active_log_level) ≡ false
        → passed l.active_log_level (e ∷ es) l.log_lines
          ≡ passed l.active_log_level es (log_line (e.0) (e.1) (e.2) ∷ l.log_lines)
    above up = unfold passed in ground (arith, up)

    room :
        {lines : List (List ℕ)} {line : List ℕ}
        → lines ≡ line ∷ take 999 l.log_lines
        → length lines ≤ 1000
    room same = omega (arith, ap length same, length-take 999 l.log_lines)
