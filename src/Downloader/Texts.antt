-- ===== src/Downloader/Texts.antt =====
-- The constant texts that src/outgoing_downloader.rs logs and reports.
use transmitic_core.Common.{ℕ, List, [], ◌∷◌}

-- `'`
abbrev pub quote : List ℕ
quote = 0x27 ∷ []

-- `Downloader new download `
abbrev pub new_download_text : List ℕ
new_download_text =
    b'D' ∷ b'o' ∷ b'w' ∷ b'n' ∷ b'l' ∷ b'o' ∷ b'a' ∷ b'd' ∷ b'e' ∷ b'r' ∷ b' ' ∷ b'n' ∷ b'e' ∷ b'w'
    ∷ b' ' ∷ b'd' ∷ b'o' ∷ b'w' ∷ b'n' ∷ b'l' ∷ b'o' ∷ b'a' ∷ b'd' ∷ b' ' ∷ []

-- ` - `
abbrev pub dash : List ℕ
dash = b' ' ∷ b'-' ∷ b' ' ∷ []

-- `Downloader cancel download `
abbrev pub cancel_text : List ℕ
cancel_text =
    b'D' ∷ b'o' ∷ b'w' ∷ b'n' ∷ b'l' ∷ b'o' ∷ b'a' ∷ b'd' ∷ b'e' ∷ b'r' ∷ b' ' ∷ b'c' ∷ b'a' ∷ b'n'
    ∷ b'c' ∷ b'e' ∷ b'l' ∷ b' ' ∷ b'd' ∷ b'o' ∷ b'w' ∷ b'n' ∷ b'l' ∷ b'o' ∷ b'a' ∷ b'd' ∷ b' ' ∷ []

-- `Downloader pause `
abbrev pub pause_text : List ℕ
pause_text =
    b'D' ∷ b'o' ∷ b'w' ∷ b'n' ∷ b'l' ∷ b'o' ∷ b'a' ∷ b'd' ∷ b'e' ∷ b'r' ∷ b' ' ∷ b'p' ∷ b'a' ∷ b'u'
    ∷ b's' ∷ b'e' ∷ b' ' ∷ []

-- `Downloader resume `
abbrev pub resume_text : List ℕ
resume_text =
    b'D' ∷ b'o' ∷ b'w' ∷ b'n' ∷ b'l' ∷ b'o' ∷ b'a' ∷ b'd' ∷ b'e' ∷ b'r' ∷ b' ' ∷ b'r' ∷ b'e' ∷ b's'
    ∷ b'u' ∷ b'm' ∷ b'e' ∷ b' ' ∷ []

-- `Downloader cancel all downloads `
abbrev pub cancel_all_text : List ℕ
cancel_all_text =
    b'D' ∷ b'o' ∷ b'w' ∷ b'n' ∷ b'l' ∷ b'o' ∷ b'a' ∷ b'd' ∷ b'e' ∷ b'r' ∷ b' ' ∷ b'c' ∷ b'a' ∷ b'n'
    ∷ b'c' ∷ b'e' ∷ b'l' ∷ b' ' ∷ b'a' ∷ b'l' ∷ b'l' ∷ b' ' ∷ b'd' ∷ b'o' ∷ b'w' ∷ b'n' ∷ b'l'
    ∷ b'o' ∷ b'a' ∷ b'd' ∷ b's' ∷ b' ' ∷ []

-- `Downloader remove `
abbrev pub remove_text : List ℕ
remove_text =
    b'D' ∷ b'o' ∷ b'w' ∷ b'n' ∷ b'l' ∷ b'o' ∷ b'a' ∷ b'd' ∷ b'e' ∷ b'r' ∷ b' ' ∷ b'r' ∷ b'e' ∷ b'm'
    ∷ b'o' ∷ b'v' ∷ b'e' ∷ b' ' ∷ []

-- `Downloader update user `
abbrev pub update_user_text : List ℕ
update_user_text =
    b'D' ∷ b'o' ∷ b'w' ∷ b'n' ∷ b'l' ∷ b'o' ∷ b'a' ∷ b'd' ∷ b'e' ∷ b'r' ∷ b' ' ∷ b'u' ∷ b'p' ∷ b'd'
    ∷ b'a' ∷ b't' ∷ b'e' ∷ b' ' ∷ b'u' ∷ b's' ∷ b'e' ∷ b'r' ∷ b' ' ∷ []

-- `Restart Downloader `
abbrev pub restart_text : List ℕ
restart_text =
    b'R' ∷ b'e' ∷ b's' ∷ b't' ∷ b'a' ∷ b'r' ∷ b't' ∷ b' ' ∷ b'D' ∷ b'o' ∷ b'w' ∷ b'n' ∷ b'l' ∷ b'o'
    ∷ b'a' ∷ b'd' ∷ b'e' ∷ b'r' ∷ b' ' ∷ []

-- `Downloader update config `
abbrev pub update_config_text : List ℕ
update_config_text =
    b'D' ∷ b'o' ∷ b'w' ∷ b'n' ∷ b'l' ∷ b'o' ∷ b'a' ∷ b'd' ∷ b'e' ∷ b'r' ∷ b' ' ∷ b'u' ∷ b'p' ∷ b'd'
    ∷ b'a' ∷ b't' ∷ b'e' ∷ b' ' ∷ b'c' ∷ b'o' ∷ b'n' ∷ b'f' ∷ b'i' ∷ b'g' ∷ b' ' ∷ []

-- `Failed to delete queue file '`
abbrev pub delete_failed : List ℕ
delete_failed =
    b'F' ∷ b'a' ∷ b'i' ∷ b'l' ∷ b'e' ∷ b'd' ∷ b' ' ∷ b't' ∷ b'o' ∷ b' ' ∷ b'd' ∷ b'e' ∷ b'l' ∷ b'e'
    ∷ b't' ∷ b'e' ∷ b' ' ∷ b'q' ∷ b'u' ∷ b'e' ∷ b'u' ∷ b'e' ∷ b' ' ∷ b'f' ∷ b'i' ∷ b'l' ∷ b'e'
    ∷ b' ' ∷ 0x27 ∷ []

-- `'. `
abbrev pub stop_space : List ℕ
stop_space = 0x27 ∷ b'.' ∷ b' ' ∷ []

-- `No longer shared with you`
abbrev pub not_shared : List ℕ
not_shared =
    b'N' ∷ b'o' ∷ b' ' ∷ b'l' ∷ b'o' ∷ b'n' ∷ b'g' ∷ b'e' ∷ b'r' ∷ b' ' ∷ b's' ∷ b'h' ∷ b'a' ∷ b'r'
    ∷ b'e' ∷ b'd' ∷ b' ' ∷ b'w' ∷ b'i' ∷ b't' ∷ b'h' ∷ b' ' ∷ b'y' ∷ b'o' ∷ b'u' ∷ []

-- `Expected file size has changed. Suggestion: Delete file and restart download.`
abbrev pub size_changed : List ℕ
size_changed =
    b'E' ∷ b'x' ∷ b'p' ∷ b'e' ∷ b'c' ∷ b't' ∷ b'e' ∷ b'd' ∷ b' ' ∷ b'f' ∷ b'i' ∷ b'l' ∷ b'e' ∷ b' '
    ∷ b's' ∷ b'i' ∷ b'z' ∷ b'e' ∷ b' ' ∷ b'h' ∷ b'a' ∷ b's' ∷ b' ' ∷ b'c' ∷ b'h' ∷ b'a' ∷ b'n'
    ∷ b'g' ∷ b'e' ∷ b'd' ∷ b'.' ∷ b' ' ∷ b'S' ∷ b'u' ∷ b'g' ∷ b'g' ∷ b'e' ∷ b's' ∷ b't' ∷ b'i'
    ∷ b'o' ∷ b'n' ∷ b':' ∷ b' ' ∷ b'D' ∷ b'e' ∷ b'l' ∷ b'e' ∷ b't' ∷ b'e' ∷ b' ' ∷ b'f' ∷ b'i'
    ∷ b'l' ∷ b'e' ∷ b' ' ∷ b'a' ∷ b'n' ∷ b'd' ∷ b' ' ∷ b'r' ∷ b'e' ∷ b's' ∷ b't' ∷ b'a' ∷ b'r'
    ∷ b't' ∷ b' ' ∷ b'd' ∷ b'o' ∷ b'w' ∷ b'n' ∷ b'l' ∷ b'o' ∷ b'a' ∷ b'd' ∷ b'.' ∷ []

-- `File is larger than expected. Suggestion: Delete file and restart download.`
abbrev pub file_larger : List ℕ
file_larger =
    b'F' ∷ b'i' ∷ b'l' ∷ b'e' ∷ b' ' ∷ b'i' ∷ b's' ∷ b' ' ∷ b'l' ∷ b'a' ∷ b'r' ∷ b'g' ∷ b'e' ∷ b'r'
    ∷ b' ' ∷ b't' ∷ b'h' ∷ b'a' ∷ b'n' ∷ b' ' ∷ b'e' ∷ b'x' ∷ b'p' ∷ b'e' ∷ b'c' ∷ b't' ∷ b'e'
    ∷ b'd' ∷ b'.' ∷ b' ' ∷ b'S' ∷ b'u' ∷ b'g' ∷ b'g' ∷ b'e' ∷ b's' ∷ b't' ∷ b'i' ∷ b'o' ∷ b'n'
    ∷ b':' ∷ b' ' ∷ b'D' ∷ b'e' ∷ b'l' ∷ b'e' ∷ b't' ∷ b'e' ∷ b' ' ∷ b'f' ∷ b'i' ∷ b'l' ∷ b'e'
    ∷ b' ' ∷ b'a' ∷ b'n' ∷ b'd' ∷ b' ' ∷ b'r' ∷ b'e' ∷ b's' ∷ b't' ∷ b'a' ∷ b'r' ∷ b't' ∷ b' '
    ∷ b'd' ∷ b'o' ∷ b'w' ∷ b'n' ∷ b'l' ∷ b'o' ∷ b'a' ∷ b'd' ∷ b'.' ∷ []

-- `Directory is larger than expected. Suggestion: Delete directory and restart download.`
abbrev pub directory_larger : List ℕ
directory_larger =
    b'D' ∷ b'i' ∷ b'r' ∷ b'e' ∷ b'c' ∷ b't' ∷ b'o' ∷ b'r' ∷ b'y' ∷ b' ' ∷ b'i' ∷ b's' ∷ b' ' ∷ b'l'
    ∷ b'a' ∷ b'r' ∷ b'g' ∷ b'e' ∷ b'r' ∷ b' ' ∷ b't' ∷ b'h' ∷ b'a' ∷ b'n' ∷ b' ' ∷ b'e' ∷ b'x'
    ∷ b'p' ∷ b'e' ∷ b'c' ∷ b't' ∷ b'e' ∷ b'd' ∷ b'.' ∷ b' ' ∷ b'S' ∷ b'u' ∷ b'g' ∷ b'g' ∷ b'e'
    ∷ b's' ∷ b't' ∷ b'i' ∷ b'o' ∷ b'n' ∷ b':' ∷ b' ' ∷ b'D' ∷ b'e' ∷ b'l' ∷ b'e' ∷ b't' ∷ b'e'
    ∷ b' ' ∷ b'd' ∷ b'i' ∷ b'r' ∷ b'e' ∷ b'c' ∷ b't' ∷ b'o' ∷ b'r' ∷ b'y' ∷ b' ' ∷ b'a' ∷ b'n'
    ∷ b'd' ∷ b' ' ∷ b'r' ∷ b'e' ∷ b's' ∷ b't' ∷ b'a' ∷ b'r' ∷ b't' ∷ b' ' ∷ b'd' ∷ b'o' ∷ b'w'
    ∷ b'n' ∷ b'l' ∷ b'o' ∷ b'a' ∷ b'd' ∷ b'.' ∷ []

-- `Directory subfile is larger than expected. Suggestion: Delete file and restart download.`
abbrev pub subfile_larger : List ℕ
subfile_larger =
    b'D' ∷ b'i' ∷ b'r' ∷ b'e' ∷ b'c' ∷ b't' ∷ b'o' ∷ b'r' ∷ b'y' ∷ b' ' ∷ b's' ∷ b'u' ∷ b'b' ∷ b'f'
    ∷ b'i' ∷ b'l' ∷ b'e' ∷ b' ' ∷ b'i' ∷ b's' ∷ b' ' ∷ b'l' ∷ b'a' ∷ b'r' ∷ b'g' ∷ b'e' ∷ b'r'
    ∷ b' ' ∷ b't' ∷ b'h' ∷ b'a' ∷ b'n' ∷ b' ' ∷ b'e' ∷ b'x' ∷ b'p' ∷ b'e' ∷ b'c' ∷ b't' ∷ b'e'
    ∷ b'd' ∷ b'.' ∷ b' ' ∷ b'S' ∷ b'u' ∷ b'g' ∷ b'g' ∷ b'e' ∷ b's' ∷ b't' ∷ b'i' ∷ b'o' ∷ b'n'
    ∷ b':' ∷ b' ' ∷ b'D' ∷ b'e' ∷ b'l' ∷ b'e' ∷ b't' ∷ b'e' ∷ b' ' ∷ b'f' ∷ b'i' ∷ b'l' ∷ b'e'
    ∷ b' ' ∷ b'a' ∷ b'n' ∷ b'd' ∷ b' ' ∷ b'r' ∷ b'e' ∷ b's' ∷ b't' ∷ b'a' ∷ b'r' ∷ b't' ∷ b' '
    ∷ b'd' ∷ b'o' ∷ b'w' ∷ b'n' ∷ b'l' ∷ b'o' ∷ b'a' ∷ b'd' ∷ b'.' ∷ []

-- `Subfile already downloaded '`
abbrev pub subfile_done : List ℕ
subfile_done =
    b'S' ∷ b'u' ∷ b'b' ∷ b'f' ∷ b'i' ∷ b'l' ∷ b'e' ∷ b' ' ∷ b'a' ∷ b'l' ∷ b'r' ∷ b'e' ∷ b'a' ∷ b'd'
    ∷ b'y' ∷ b' ' ∷ b'd' ∷ b'o' ∷ b'w' ∷ b'n' ∷ b'l' ∷ b'o' ∷ b'a' ∷ b'd' ∷ b'e' ∷ b'd' ∷ b' '
    ∷ 0x27 ∷ []

-- `' - `
abbrev pub quote_dash : List ℕ
quote_dash = 0x27 ∷ b' ' ∷ b'-' ∷ b' ' ∷ []

-- `Remote and local disagreement on finished download. Is Local Finished: `
abbrev pub disagreement : List ℕ
disagreement =
    b'R' ∷ b'e' ∷ b'm' ∷ b'o' ∷ b't' ∷ b'e' ∷ b' ' ∷ b'a' ∷ b'n' ∷ b'd' ∷ b' ' ∷ b'l' ∷ b'o' ∷ b'c'
    ∷ b'a' ∷ b'l' ∷ b' ' ∷ b'd' ∷ b'i' ∷ b's' ∷ b'a' ∷ b'g' ∷ b'r' ∷ b'e' ∷ b'e' ∷ b'm' ∷ b'e'
    ∷ b'n' ∷ b't' ∷ b' ' ∷ b'o' ∷ b'n' ∷ b' ' ∷ b'f' ∷ b'i' ∷ b'n' ∷ b'i' ∷ b's' ∷ b'h' ∷ b'e'
    ∷ b'd' ∷ b' ' ∷ b'd' ∷ b'o' ∷ b'w' ∷ b'n' ∷ b'l' ∷ b'o' ∷ b'a' ∷ b'd' ∷ b'.' ∷ b' ' ∷ b'I'
    ∷ b's' ∷ b' ' ∷ b'L' ∷ b'o' ∷ b'c' ∷ b'a' ∷ b'l' ∷ b' ' ∷ b'F' ∷ b'i' ∷ b'n' ∷ b'i' ∷ b's'
    ∷ b'h' ∷ b'e' ∷ b'd' ∷ b':' ∷ b' ' ∷ []

-- `. Is Remote Finished: `
abbrev pub remote_finished : List ℕ
remote_finished =
    b'.' ∷ b' ' ∷ b'I' ∷ b's' ∷ b' ' ∷ b'R' ∷ b'e' ∷ b'm' ∷ b'o' ∷ b't' ∷ b'e' ∷ b' ' ∷ b'F' ∷ b'i'
    ∷ b'n' ∷ b'i' ∷ b's' ∷ b'h' ∷ b'e' ∷ b'd' ∷ b':' ∷ b' ' ∷ []

-- `. Suggestion: Delete file and download again.`
abbrev pub suggestion : List ℕ
suggestion =
    b'.' ∷ b' ' ∷ b'S' ∷ b'u' ∷ b'g' ∷ b'g' ∷ b'e' ∷ b's' ∷ b't' ∷ b'i' ∷ b'o' ∷ b'n' ∷ b':' ∷ b' '
    ∷ b'D' ∷ b'e' ∷ b'l' ∷ b'e' ∷ b't' ∷ b'e' ∷ b' ' ∷ b'f' ∷ b'i' ∷ b'l' ∷ b'e' ∷ b' ' ∷ b'a'
    ∷ b'n' ∷ b'd' ∷ b' ' ∷ b'd' ∷ b'o' ∷ b'w' ∷ b'n' ∷ b'l' ∷ b'o' ∷ b'a' ∷ b'd' ∷ b' ' ∷ b'a'
    ∷ b'g' ∷ b'a' ∷ b'i' ∷ b'n' ∷ b'.' ∷ []

-- `true`
abbrev pub true_text : List ℕ
true_text = b't' ∷ b'r' ∷ b'u' ∷ b'e' ∷ []

-- `false`
abbrev pub false_text : List ℕ
false_text = b'f' ∷ b'a' ∷ b'l' ∷ b's' ∷ b'e' ∷ []

-- `Download Everything File: '`
abbrev pub everything_text : List ℕ
everything_text =
    b'D' ∷ b'o' ∷ b'w' ∷ b'n' ∷ b'l' ∷ b'o' ∷ b'a' ∷ b'd' ∷ b' ' ∷ b'E' ∷ b'v' ∷ b'e' ∷ b'r' ∷ b'y'
    ∷ b't' ∷ b'h' ∷ b'i' ∷ b'n' ∷ b'g' ∷ b' ' ∷ b'F' ∷ b'i' ∷ b'l' ∷ b'e' ∷ b':' ∷ b' ' ∷ 0x27 ∷ []

-- `Attempt outgoing download `
abbrev pub attempt_text : List ℕ
attempt_text =
    b'A' ∷ b't' ∷ b't' ∷ b'e' ∷ b'm' ∷ b'p' ∷ b't' ∷ b' ' ∷ b'o' ∷ b'u' ∷ b't' ∷ b'g' ∷ b'o' ∷ b'i'
    ∷ b'n' ∷ b'g' ∷ b' ' ∷ b'd' ∷ b'o' ∷ b'w' ∷ b'n' ∷ b'l' ∷ b'o' ∷ b'a' ∷ b'd' ∷ b' ' ∷ []

-- `Start downloading from '`
abbrev pub start_text : List ℕ
start_text =
    b'S' ∷ b't' ∷ b'a' ∷ b'r' ∷ b't' ∷ b' ' ∷ b'd' ∷ b'o' ∷ b'w' ∷ b'n' ∷ b'l' ∷ b'o' ∷ b'a' ∷ b'd'
    ∷ b'i' ∷ b'n' ∷ b'g' ∷ b' ' ∷ b'f' ∷ b'r' ∷ b'o' ∷ b'm' ∷ b' ' ∷ 0x27 ∷ []

-- `Everything file unexpectedly has no data: '`
abbrev pub no_data_text : List ℕ
no_data_text =
    b'E' ∷ b'v' ∷ b'e' ∷ b'r' ∷ b'y' ∷ b't' ∷ b'h' ∷ b'i' ∷ b'n' ∷ b'g' ∷ b' ' ∷ b'f' ∷ b'i' ∷ b'l'
    ∷ b'e' ∷ b' ' ∷ b'u' ∷ b'n' ∷ b'e' ∷ b'x' ∷ b'p' ∷ b'e' ∷ b'c' ∷ b't' ∷ b'e' ∷ b'd' ∷ b'l'
    ∷ b'y' ∷ b' ' ∷ b'h' ∷ b'a' ∷ b's' ∷ b' ' ∷ b'n' ∷ b'o' ∷ b' ' ∷ b'd' ∷ b'a' ∷ b't' ∷ b'a'
    ∷ b':' ∷ b' ' ∷ 0x27 ∷ []

-- `Everything file unexpectedly missing: '`
abbrev pub missing_text : List ℕ
missing_text =
    b'E' ∷ b'v' ∷ b'e' ∷ b'r' ∷ b'y' ∷ b't' ∷ b'h' ∷ b'i' ∷ b'n' ∷ b'g' ∷ b' ' ∷ b'f' ∷ b'i' ∷ b'l'
    ∷ b'e' ∷ b' ' ∷ b'u' ∷ b'n' ∷ b'e' ∷ b'x' ∷ b'p' ∷ b'e' ∷ b'c' ∷ b't' ∷ b'e' ∷ b'd' ∷ b'l'
    ∷ b'y' ∷ b' ' ∷ b'm' ∷ b'i' ∷ b's' ∷ b's' ∷ b'i' ∷ b'n' ∷ b'g' ∷ b':' ∷ b' ' ∷ 0x27 ∷ []

-- `Transmitic Error: Channel disconnected before refresh data was received.`
abbrev pub channel_gone : List ℕ
channel_gone =
    b'T' ∷ b'r' ∷ b'a' ∷ b'n' ∷ b's' ∷ b'm' ∷ b'i' ∷ b't' ∷ b'i' ∷ b'c' ∷ b' ' ∷ b'E' ∷ b'r' ∷ b'r'
    ∷ b'o' ∷ b'r' ∷ b':' ∷ b' ' ∷ b'C' ∷ b'h' ∷ b'a' ∷ b'n' ∷ b'n' ∷ b'e' ∷ b'l' ∷ b' ' ∷ b'd'
    ∷ b'i' ∷ b's' ∷ b'c' ∷ b'o' ∷ b'n' ∷ b'n' ∷ b'e' ∷ b'c' ∷ b't' ∷ b'e' ∷ b'd' ∷ b' ' ∷ b'b'
    ∷ b'e' ∷ b'f' ∷ b'o' ∷ b'r' ∷ b'e' ∷ b' ' ∷ b'r' ∷ b'e' ∷ b'f' ∷ b'r' ∷ b'e' ∷ b's' ∷ b'h'
    ∷ b' ' ∷ b'd' ∷ b'a' ∷ b't' ∷ b'a' ∷ b' ' ∷ b'w' ∷ b'a' ∷ b's' ∷ b' ' ∷ b'r' ∷ b'e' ∷ b'c'
    ∷ b'e' ∷ b'i' ∷ b'v' ∷ b'e' ∷ b'd' ∷ b'.' ∷ []

-- `.txt`
abbrev pub txt : List ℕ
txt = b'.' ∷ b't' ∷ b'x' ∷ b't' ∷ []

-- `Start refresh with missing key: '`
abbrev pub start_refresh : List ℕ
start_refresh =
    b'S' ∷ b't' ∷ b'a' ∷ b'r' ∷ b't' ∷ b' ' ∷ b'r' ∷ b'e' ∷ b'f' ∷ b'r' ∷ b'e' ∷ b's' ∷ b'h' ∷ b' '
    ∷ b'w' ∷ b'i' ∷ b't' ∷ b'h' ∷ b' ' ∷ b'm' ∷ b'i' ∷ b's' ∷ b's' ∷ b'i' ∷ b'n' ∷ b'g' ∷ b' '
    ∷ b'k' ∷ b'e' ∷ b'y' ∷ b':' ∷ b' ' ∷ 0x27 ∷ []
