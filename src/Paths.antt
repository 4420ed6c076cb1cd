-- ===== src/Paths.antt =====
-- Which paths are accepted: the character tests of src/config.rs, in a build for unix. A path is
-- the list of its UTF-8 bytes; every character that the tests name is ASCII, so a byte test and a
-- character test agree.
pub mod Parts
pub mod Loops
pub mod Pieces
pub mod Kinds
pub mod Valid
mod Tests
use transmitic_core.Common.{
  ℕ, suc, Bool, true, false, not, ◌&&◌, ◌||◌, List, [], ◌∷◌, ◌++◌, ◌==◌, if◌then◌else◌, contains,
  length, get_elem?, Option, some, none, text_eq,
}
use Parts.{path_iter, replace}

-- `*?"<>|`
unfoldable pub get_blocked_file_path_chars : List ℕ
get_blocked_file_path_chars = b'*' ∷ b'?' ∷ 0x22 ∷ b'<' ∷ b'>' ∷ b'|' ∷ []

unfoldable pub get_blocked_file_name_chars : List ℕ
unfolding get_blocked_file_path_chars
get_blocked_file_name_chars = get_blocked_file_path_chars ++ (0x5c ∷ b':' ∷ b'/' ∷ [])

unfoldable pub get_blocked_user_name_chars : List ℕ
unfolding get_blocked_file_name_chars
get_blocked_user_name_chars = get_blocked_file_name_chars ++ (b'.' ∷ b'{' ∷ b'}' ∷ [])

-- `for c in chars { if text.contains(c) { return ... } }`
unfoldable pub contains_any : List ℕ → List ℕ → Bool
contains_any [] text = false
contains_any (c ∷ chars) text = contains text c || contains_any chars text

-- A drive, such as `c:`.
unfoldable pub is_drive : ℕ → List ℕ → Bool
is_drive index s =
    index == 0 && length s == 2 && elim (get_elem? s 1) [ none ↦ false | some c ↦ c == b':' ]

unfoldable pub is_separator : List ℕ → Bool
is_separator s = text_eq s (b'/' ∷ []) || text_eq s (0x5c ∷ [])

-- The loop over the parts, with the index of the first.
unfoldable pub parts_valid : ℕ → List (List ℕ) → Bool
parts_valid index [] = true
parts_valid index (s ∷ parts) =
    let rest = parts_valid (suc index) parts in
    if is_drive index s || is_separator s
    then rest
    else if contains_any get_blocked_file_name_chars s
    then false
    else rest

-- A part that holds something else than periods.
unfoldable pub keep_part : List ℕ → Bool
keep_part [] = false
keep_part (c ∷ s) = if not (c == b'.') then true else keep_part s

unfoldable pub parts_kept : List (List ℕ) → Bool
parts_kept [] = true
parts_kept (s ∷ parts) = let rest = parts_kept parts in if not (keep_part s) then false else rest

unfoldable pub file_contains_only_valid_chars : List ℕ → Bool
file_contains_only_valid_chars path =
    let path = replace 0x5c b'/' path in
    if contains_any get_blocked_file_path_chars path
    then false
    else if parts_valid 0 (path_iter path)
    then parts_kept (path_iter path)
    else false
