-- ===== src/Logger/Texts.antt =====
-- The constant texts of src/logger.rs.
use transmitic_core.Common.{ℕ, List, [], ◌∷◌}

-- `[CRITICAL]`
abbrev pub critical_tag : List ℕ
critical_tag = b'[' ∷ b'C' ∷ b'R' ∷ b'I' ∷ b'T' ∷ b'I' ∷ b'C' ∷ b'A' ∷ b'L' ∷ b']' ∷ []

-- `[ERROR]   `
abbrev pub error_tag : List ℕ
error_tag = b'[' ∷ b'E' ∷ b'R' ∷ b'R' ∷ b'O' ∷ b'R' ∷ b']' ∷ b' ' ∷ b' ' ∷ b' ' ∷ []

-- `[WARNING] `
abbrev pub warning_tag : List ℕ
warning_tag = b'[' ∷ b'W' ∷ b'A' ∷ b'R' ∷ b'N' ∷ b'I' ∷ b'N' ∷ b'G' ∷ b']' ∷ b' ' ∷ []

-- `[INFO]    `
abbrev pub info_tag : List ℕ
info_tag = b'[' ∷ b'I' ∷ b'N' ∷ b'F' ∷ b'O' ∷ b']' ∷ b' ' ∷ b' ' ∷ b' ' ∷ b' ' ∷ []

-- `[DEBUG]   `
abbrev pub debug_tag : List ℕ
debug_tag = b'[' ∷ b'D' ∷ b'E' ∷ b'B' ∷ b'U' ∷ b'G' ∷ b']' ∷ b' ' ∷ b' ' ∷ b' ' ∷ []

-- `TimeError`
abbrev pub time_error : List ℕ
time_error = b'T' ∷ b'i' ∷ b'm' ∷ b'e' ∷ b'E' ∷ b'r' ∷ b'r' ∷ b'o' ∷ b'r' ∷ []

-- ` |  `
abbrev pub bar : List ℕ
bar = b' ' ∷ b'|' ∷ b' ' ∷ b' ' ∷ []

-- `[ERROR] | Failed to open append log `
abbrev pub append_failed : List ℕ
append_failed =
    b'[' ∷ b'E' ∷ b'R' ∷ b'R' ∷ b'O' ∷ b'R' ∷ b']' ∷ b' ' ∷ b'|' ∷ b' ' ∷ b'F' ∷ b'a' ∷ b'i' ∷ b'l'
    ∷ b'e' ∷ b'd' ∷ b' ' ∷ b't' ∷ b'o' ∷ b' ' ∷ b'o' ∷ b'p' ∷ b'e' ∷ b'n' ∷ b' ' ∷ b'a' ∷ b'p'
    ∷ b'p' ∷ b'e' ∷ b'n' ∷ b'd' ∷ b' ' ∷ b'l' ∷ b'o' ∷ b'g' ∷ b' ' ∷ []

-- `[ERROR] | Failed to open truncate log `
abbrev pub truncate_failed : List ℕ
truncate_failed =
    b'[' ∷ b'E' ∷ b'R' ∷ b'R' ∷ b'O' ∷ b'R' ∷ b']' ∷ b' ' ∷ b'|' ∷ b' ' ∷ b'F' ∷ b'a' ∷ b'i' ∷ b'l'
    ∷ b'e' ∷ b'd' ∷ b' ' ∷ b't' ∷ b'o' ∷ b' ' ∷ b'o' ∷ b'p' ∷ b'e' ∷ b'n' ∷ b' ' ∷ b't' ∷ b'r'
    ∷ b'u' ∷ b'n' ∷ b'c' ∷ b'a' ∷ b't' ∷ b'e' ∷ b' ' ∷ b'l' ∷ b'o' ∷ b'g' ∷ b' ' ∷ []
