-- ===== src/Uploader/Texts.antt =====
-- The constant texts that src/incoming_uploader.rs logs.
use transmitic_core.Common.{ℕ, List, [], ◌∷◌}

-- `'`
abbrev pub quote : List ℕ
quote = 0x27 ∷ []

-- `' requested file list`
abbrev pub requested_list : List ℕ
requested_list =
    0x27 ∷ b' ' ∷ b'r' ∷ b'e' ∷ b'q' ∷ b'u' ∷ b'e' ∷ b's' ∷ b't' ∷ b'e' ∷ b'd' ∷ b' ' ∷ b'f' ∷ b'i'
    ∷ b'l' ∷ b'e' ∷ b' ' ∷ b'l' ∷ b'i' ∷ b's' ∷ b't' ∷ []

-- `' chose file '`
abbrev pub chose_file : List ℕ
chose_file =
    0x27 ∷ b' ' ∷ b'c' ∷ b'h' ∷ b'o' ∷ b's' ∷ b'e' ∷ b' ' ∷ b'f' ∷ b'i' ∷ b'l' ∷ b'e' ∷ b' ' ∷ 0x27
    ∷ []

-- `' at seek point '`
abbrev pub at_seek : List ℕ
at_seek =
    0x27 ∷ b' ' ∷ b'a' ∷ b't' ∷ b' ' ∷ b's' ∷ b'e' ∷ b'e' ∷ b'k' ∷ b' ' ∷ b'p' ∷ b'o' ∷ b'i' ∷ b'n'
    ∷ b't' ∷ b' ' ∷ 0x27 ∷ []

-- `' chose invalid file '`
abbrev pub chose_invalid : List ℕ
chose_invalid =
    0x27 ∷ b' ' ∷ b'c' ∷ b'h' ∷ b'o' ∷ b's' ∷ b'e' ∷ b' ' ∷ b'i' ∷ b'n' ∷ b'v' ∷ b'a' ∷ b'l' ∷ b'i'
    ∷ b'd' ∷ b' ' ∷ b'f' ∷ b'i' ∷ b'l' ∷ b'e' ∷ b' ' ∷ 0x27 ∷ []

-- `' chose directory. Not allowed. '`
abbrev pub chose_directory : List ℕ
chose_directory =
    0x27 ∷ b' ' ∷ b'c' ∷ b'h' ∷ b'o' ∷ b's' ∷ b'e' ∷ b' ' ∷ b'd' ∷ b'i' ∷ b'r' ∷ b'e' ∷ b'c' ∷ b't'
    ∷ b'o' ∷ b'r' ∷ b'y' ∷ b'.' ∷ b' ' ∷ b'N' ∷ b'o' ∷ b't' ∷ b' ' ∷ b'a' ∷ b'l' ∷ b'l' ∷ b'o'
    ∷ b'w' ∷ b'e' ∷ b'd' ∷ b'.' ∷ b' ' ∷ 0x27 ∷ []

-- `Sending '`
abbrev pub sending : List ℕ
sending = b'S' ∷ b'e' ∷ b'n' ∷ b'd' ∷ b'i' ∷ b'n' ∷ b'g' ∷ b' ' ∷ 0x27 ∷ []

-- `' file '`
abbrev pub file_word : List ℕ
file_word = 0x27 ∷ b' ' ∷ b'f' ∷ b'i' ∷ b'l' ∷ b'e' ∷ b' ' ∷ 0x27 ∷ []

-- `File transfer to '`
abbrev pub transfer_to : List ℕ
transfer_to =
    b'F' ∷ b'i' ∷ b'l' ∷ b'e' ∷ b' ' ∷ b't' ∷ b'r' ∷ b'a' ∷ b'n' ∷ b's' ∷ b'f' ∷ b'e' ∷ b'r' ∷ b' '
    ∷ b't' ∷ b'o' ∷ b' ' ∷ 0x27 ∷ []

-- `' completed '`
abbrev pub completed_word : List ℕ
completed_word =
    0x27 ∷ b' ' ∷ b'c' ∷ b'o' ∷ b'm' ∷ b'p' ∷ b'l' ∷ b'e' ∷ b't' ∷ b'e' ∷ b'd' ∷ b' ' ∷ 0x27 ∷ []

-- `Receiver disconnected '`
abbrev pub receiver_gone : List ℕ
receiver_gone =
    b'R' ∷ b'e' ∷ b'c' ∷ b'e' ∷ b'i' ∷ b'v' ∷ b'e' ∷ b'r' ∷ b' ' ∷ b'd' ∷ b'i' ∷ b's' ∷ b'c' ∷ b'o'
    ∷ b'n' ∷ b'n' ∷ b'e' ∷ b'c' ∷ b't' ∷ b'e' ∷ b'd' ∷ b' ' ∷ 0x27 ∷ []

-- `' '`
abbrev pub between : List ℕ
between = 0x27 ∷ b' ' ∷ 0x27 ∷ []

-- `receiving on a closed channel`
abbrev pub disconnected_text : List ℕ
disconnected_text =
    b'r' ∷ b'e' ∷ b'c' ∷ b'e' ∷ b'i' ∷ b'v' ∷ b'i' ∷ b'n' ∷ b'g' ∷ b' ' ∷ b'o' ∷ b'n' ∷ b' ' ∷ b'a'
    ∷ b' ' ∷ b'c' ∷ b'l' ∷ b'o' ∷ b's' ∷ b'e' ∷ b'd' ∷ b' ' ∷ b'c' ∷ b'h' ∷ b'a' ∷ b'n' ∷ b'n'
    ∷ b'e' ∷ b'l' ∷ []
