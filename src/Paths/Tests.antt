-- ===== src/Paths/Tests.antt =====
-- The theorem about the accepted paths, at one path.
use transmitic_core.Common.{ℕ, ◌≡◌, ◌↔◌, true, List, [], ◌∷◌}
use transmitic_core.Paths.{file_contains_only_valid_chars}
use transmitic_core.Paths.Valid.{IsAccepted, file_contains_only_valid_chars_iff}

-- `c:\a..`
abbrev choice : List ℕ
choice = b'c' ∷ b':' ∷ 0x5c ∷ b'a' ∷ b'.' ∷ b'.' ∷ []

file_contains_only_valid_chars_iff_example :
    (file_contains_only_valid_chars choice ≡ true) ↔ IsAccepted choice
file_contains_only_valid_chars_iff_example = file_contains_only_valid_chars_iff choice
