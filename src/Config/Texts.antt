-- ===== src/Config/Texts.antt =====
-- The constant texts of src/config.rs.
use transmitic_core.Common.{ℕ, List, [], ◌∷◌}

-- `file://`
abbrev pub file_scheme : List ℕ
file_scheme = b'f' ∷ b'i' ∷ b'l' ∷ b'e' ∷ b':' ∷ b'/' ∷ b'/' ∷ []

-- `transmitic`
abbrev pub reserved : List ℕ
reserved = b't' ∷ b'r' ∷ b'a' ∷ b'n' ∷ b's' ∷ b'm' ∷ b'i' ∷ b't' ∷ b'i' ∷ b'c' ∷ []
