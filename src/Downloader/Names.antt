-- ===== src/Downloader/Names.antt =====
-- The name of a downloaded file on the disk: the last two functions of
-- src/outgoing_downloader.rs, in a build for unix.
pub mod Safe
use transmitic_core.Common.{
  ℕ, zero, suc, Bool, true, false, not, ◌||◌, ◌&&◌, Option, none, some, List, [], ◌∷◌, ◌++◌, ◌==◌,
  Outcome, ok, err, panic, ◌>>=◌, text_eq, if◌then◌else◌,
}
use transmitic_core.AppAggregator.{Text}
use transmitic_core.Paths.Parts.{path_iter, replace}
use transmitic_core.SharedFile.{SharedFile, path}
use transmitic_core.Downloader.{DownloadError, not_sanitized}

-- `replace("\\\\", "\\")`, two backslashes by one.
unfoldable pub replace_double : Text → Text
replace_double [] = []
replace_double (c ∷ []) = c ∷ []
replace_double (c ∷ d ∷ s) =
    let cut = replace_double s in
    let kept = replace_double (d ∷ s) in if (c == 0x5c) && (d == 0x5c) then 0x5c ∷ cut else c ∷ kept

-- The loop, by the attempts that are left.
unfoldable pub sanitize_loop : ℕ → Text → Outcome DownloadError Text
sanitize_loop zero new_path = err not_sanitized
sanitize_loop (suc attempts) compare_path =
    let zeros_replaced = replace 0 b'0' compare_path in
    let doubles_replaced = replace_double zeros_replaced in
    let again = sanitize_loop attempts zeros_replaced in
    let again' = sanitize_loop attempts doubles_replaced in
    if not (text_eq zeros_replaced compare_path)
    then again
    else if not (text_eq doubles_replaced compare_path)
    then again'
    else ok doubles_replaced

abbrev pub max_attempts : ℕ
max_attempts = 10

unfoldable pub sanitize_disk_path : Text → Outcome DownloadError Text
unfolding sanitize_loop
sanitize_disk_path original_path = sanitize_loop max_attempts (replace 0x5c b'/' original_path)

unfoldable pub last : List Text → Option Text
last [] = none
last (p ∷ []) = some p
last (p ∷ q ∷ ps) = last (q ∷ ps)

-- `Path::file_name`: the last part, unless it is the root, `.` or `..`.
abbrev pub is_normal : Text → Bool
is_normal p = not (text_eq p (b'/' ∷ []) || text_eq p (b'.' ∷ []) || text_eq p (b'.' ∷ b'.' ∷ []))

abbrev pub normal : Option Text → Option Text
normal none = none
normal (some p) = if is_normal p then some p else none

unfoldable pub file_name : Text → Option Text
unfolding last
file_name s = normal (last (path_iter s))

-- `unwrap`
abbrev pub unwrap : Option Text → Outcome DownloadError Text
unwrap none = panic
unwrap (some p) = ok p

unfoldable pub get_sanitized_disk_file_name : SharedFile → Outcome DownloadError Text
unfolding sanitize_disk_path file_name
get_sanitized_disk_file_name file = do
  sanitized_path ← sanitize_disk_path (path file)
  unwrap (file_name sanitized_path)
