-- ===== src/AppAggregator/Texts.antt =====
-- The constant texts that src/app_aggregator.rs logs.
use transmitic_core.Common.{ℕ, List, [], ◌∷◌}

-- `Invalid file from '`
abbrev pub invalid_file_from : List ℕ
invalid_file_from =
    b'I' ∷ b'n' ∷ b'v' ∷ b'a' ∷ b'l' ∷ b'i' ∷ b'd' ∷ b' ' ∷ b'f' ∷ b'i' ∷ b'l' ∷ b'e' ∷ b' ' ∷ b'f'
    ∷ b'r' ∷ b'o' ∷ b'm' ∷ b' ' ∷ 0x27 ∷ []

-- `' - '`
abbrev pub between : List ℕ
between = 0x27 ∷ b' ' ∷ b'-' ∷ b' ' ∷ 0x27 ∷ []

-- `'`
abbrev pub quote : List ℕ
quote = 0x27 ∷ []

-- `Download completed '`
abbrev pub download_completed : List ℕ
download_completed =
    b'D' ∷ b'o' ∷ b'w' ∷ b'n' ∷ b'l' ∷ b'o' ∷ b'a' ∷ b'd' ∷ b' ' ∷ b'c' ∷ b'o' ∷ b'm' ∷ b'p' ∷ b'l'
    ∷ b'e' ∷ b't' ∷ b'e' ∷ b'd' ∷ b' ' ∷ 0x27 ∷ []

-- `Upload disconnected '`
abbrev pub upload_disconnected : List ℕ
upload_disconnected =
    b'U' ∷ b'p' ∷ b'l' ∷ b'o' ∷ b'a' ∷ b'd' ∷ b' ' ∷ b'd' ∷ b'i' ∷ b's' ∷ b'c' ∷ b'o' ∷ b'n' ∷ b'n'
    ∷ b'e' ∷ b'c' ∷ b't' ∷ b'e' ∷ b'd' ∷ b' ' ∷ 0x27 ∷ []

-- `Uploading Error. Sharing has stopped.: `
abbrev pub uploading_error : List ℕ
uploading_error =
    b'U' ∷ b'p' ∷ b'l' ∷ b'o' ∷ b'a' ∷ b'd' ∷ b'i' ∷ b'n' ∷ b'g' ∷ b' ' ∷ b'E' ∷ b'r' ∷ b'r' ∷ b'o'
    ∷ b'r' ∷ b'.' ∷ b' ' ∷ b'S' ∷ b'h' ∷ b'a' ∷ b'r' ∷ b'i' ∷ b'n' ∷ b'g' ∷ b' ' ∷ b'h' ∷ b'a'
    ∷ b's' ∷ b' ' ∷ b's' ∷ b't' ∷ b'o' ∷ b'p' ∷ b'p' ∷ b'e' ∷ b'd' ∷ b'.' ∷ b':' ∷ b' ' ∷ []

-- `Uploading Error. Port already in use. Sharing has stopped.`
abbrev pub port_in_use_text : List ℕ
port_in_use_text =
    b'U' ∷ b'p' ∷ b'l' ∷ b'o' ∷ b'a' ∷ b'd' ∷ b'i' ∷ b'n' ∷ b'g' ∷ b' ' ∷ b'E' ∷ b'r' ∷ b'r' ∷ b'o'
    ∷ b'r' ∷ b'.' ∷ b' ' ∷ b'P' ∷ b'o' ∷ b'r' ∷ b't' ∷ b' ' ∷ b'a' ∷ b'l' ∷ b'r' ∷ b'e' ∷ b'a'
    ∷ b'd' ∷ b'y' ∷ b' ' ∷ b'i' ∷ b'n' ∷ b' ' ∷ b'u' ∷ b's' ∷ b'e' ∷ b'.' ∷ b' ' ∷ b'S' ∷ b'h'
    ∷ b'a' ∷ b'r' ∷ b'i' ∷ b'n' ∷ b'g' ∷ b' ' ∷ b'h' ∷ b'a' ∷ b's' ∷ b' ' ∷ b's' ∷ b't' ∷ b'o'
    ∷ b'p' ∷ b'p' ∷ b'e' ∷ b'd' ∷ b'.' ∷ []

-- `Reverse AppAgg`
abbrev pub reverse_text : List ℕ
reverse_text =
    b'R' ∷ b'e' ∷ b'v' ∷ b'e' ∷ b'r' ∷ b's' ∷ b'e' ∷ b' ' ∷ b'A' ∷ b'p' ∷ b'p' ∷ b'A' ∷ b'g' ∷ b'g'
    ∷ []
