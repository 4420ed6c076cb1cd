-- ===== src/Downloader/QueueFile.antt =====
-- The queue file of a downloader of src/outgoing_downloader.rs: one line for each item, its size,
-- a colon and its path.
pub mod RoundTrip
use transmitic_core.Common.{
  ℕ, Bool, true, false, Option, none, some, List, [], ◌∷◌, ◌++◌, ◌==◌, Outcome, ok, err, ◌>>=◌,
  is_empty, ok_or, if◌then◌else◌, get, remove,
}
use transmitic_core.Common.Decimals.{u64_to_string, parse_u64}
use transmitic_core.Common.Actions.{pure, gets, modify, then_do}
use transmitic_core.AppAggregator.{Text, log_error}
use transmitic_core.Paths.Parts.{split}
use transmitic_core.Downloader.{
  SingleDownloader, DownloadQueueItem, DownloadError, no_separator, invalid_size, Host, Download,
  send, write_file,
}
use transmitic_core.Downloader.Texts.{delete_failed, stop_space}

-- `writeln!(write_string, "{}:{}", f.file_size, f.path)` without the line feed.
abbrev pub queue_line : DownloadQueueItem → Text
queue_line f = u64_to_string f.file_size ++ (b':' ∷ f.path)

unfoldable pub queue_text : List DownloadQueueItem → Text
queue_text [] = []
queue_text (f ∷ fs) = queue_line f ++ (0x0a ∷ queue_text fs)

-- `join(":")`
unfoldable pub join : List Text → Text
join [] = []
join (p ∷ []) = p
join (p ∷ q ∷ ps) = p ++ (b':' ∷ join (q ∷ ps))

-- `lines`: nothing after the last line feed is no line, and a carriage return in front of a line
-- feed belongs to the line's end. `line` is what has been read of the current line.
unfoldable pub without_return : Text → Text
without_return [] = []
without_return (c ∷ []) = if c == 0x0d then [] else c ∷ []
without_return (c ∷ d ∷ s) = c ∷ without_return (d ∷ s)

unfoldable pub lines_loop : Text → Text → List Text
lines_loop line [] = if is_empty line then [] else line ∷ []
lines_loop line (c ∷ s) =
    let cut = without_return line ∷ lines_loop [] s in
    let grown = lines_loop (line ++ (c ∷ [])) s in if c == 0x0a then cut else grown

unfoldable pub lines : Text → List Text
unfolding lines_loop
lines s = lines_loop [] s

-- One line that is not empty, by its pieces.
unfoldable pub parse_pieces : Text → List Text → Outcome DownloadError DownloadQueueItem
parse_pieces line [] = err (no_separator line)
parse_pieces line (size ∷ []) = err (no_separator line)
parse_pieces line (size ∷ part ∷ parts) = do
  file_size ← ok_or (parse_u64 size) (invalid_size line)
  ok (record { path = join (part ∷ parts); file_size = file_size })

unfoldable pub parse_line : Text → Outcome DownloadError DownloadQueueItem
parse_line line = parse_pieces line (split b':' line)

module _ (host : Host) where
  open host use {trim, is_utf8, remove_error}

  -- The loop over the lines.
  unfoldable pub read_lines : List Text → Download (Unit {0})
  read_lines [] = pure tt
  read_lines (line ∷ rest) =
      let later = read_lines rest in
      if is_empty (trim line) then later else λ d.
      then_do (d, parse_line (trim line))
        λ f d. later (record d { download_queue = d.download_queue ++ (f ∷ []) })

  -- `read_to_string` fails where there is no file, or no text.
  abbrev pub read_to_string : Text → SingleDownloader → Option Text
  read_to_string path d = elim (get d.disk path) [
    | none ↦ none
    | some content ↦ if is_utf8 content then some content else none
  ]

  unfoldable pub initialize_download_queue : Download (Unit {0})
  initialize_download_queue d0 =
      let d = record d0 { download_queue = [] } in
      elim (read_to_string d.path_queue_file d) [
        | none ↦ (d, ok tt)
        | some contents ↦ read_lines (lines contents) d
      ]

  unfoldable pub write_queue_file : Download (Unit {0})
  write_queue_file d = write_file host d.path_queue_file (queue_text d.download_queue) d

  -- The queue file is removed when the queue is empty.
  unfoldable pub write_queue : Download (Unit {0})
  write_queue d =
      if is_empty d.download_queue
      then (elim (get d.disk d.path_queue_file) [
        | none ↦ (d, ok tt)
        | some content ↦ elim (remove_error d.path_queue_file) [
          | none ↦ (record d { disk = remove d.disk d.path_queue_file }, ok tt)
          | some e ↦
              then_do (write_queue_file d)
                λ _. send (log_error (delete_failed ++ d.path_queue_file ++ stop_space ++ e))
        ]
      ])
      else write_queue_file d

  unfoldable pub set_active_download_finished : Download (Unit {0})
  set_active_download_finished d =
      let front = record d { download_queue = elim (d.download_queue) [ [] ↦ [] | f ∷ fs ↦ fs ] } in
      then_do (write_queue front) λ _. modify (λ d. record d { active_download_path = none })
