-- ===== src/Downloader/Receiver.antt =====
-- `read_receiver` of a downloader of src/outgoing_downloader.rs: the messages from the app and
-- the connections that peers have reversed.
pub mod Rounds
pub mod Saved
pub mod Cancels
use transmitic_core.Common.{
  ℕ, Bool, true, false, Option, none, some, List, [], ◌∷◌, ◌++◌, ok, err, text_eq, if◌then◌else◌,
}
use transmitic_core.Common.Actions.{
  TryRecv, value, empty, disconnected, pure, raise, gets, modify, ◌>>=◌, ◌>>◌,
}
use transmitic_core.AppAggregator.{Text, log_debug}
use transmitic_core.Downloader.{
  SingleDownloader, DownloadQueueItem, MessageSingleDownloader, new_config, new_shared_user,
  new_download, cancel_all_downloads, cancel_download, pause_downloads, resume_downloads,
  remove_user, restart_connection, new_connection, receiver_disconnected, Host, Download, send,
  retain_other, app_update_in_progress,
}
use transmitic_core.Downloader.QueueFile.{write_queue}
use transmitic_core.Downloader.Texts.{
  new_download_text, dash, cancel_text, pause_text, resume_text, cancel_all_text, remove_text,
  update_user_text, restart_text, update_config_text,
}

-- A debug line that names the user.
abbrev pub log_user : Text → Text → Download (Unit {0})
log_user text rest d = send (log_debug (text ++ d.shared_user.nickname ++ rest)) d

-- The reversed connections, one poll.
unfoldable pub poll_reverse : Download (Unit {0})
poll_reverse d = elim (d.rev_polls) [
  | [] ↦ (d, ok tt)
  | value (new_connection enc) ∷ polls ↦ (
    record d { rev_polls = polls; stop_downloading = true; reverse_connection = some enc },
    ok tt,
  )
  | empty ∷ polls ↦ (record d { rev_polls = polls }, ok tt)
  | disconnected ∷ polls ↦ (d, err receiver_disconnected)
]

-- The active download is given up if it is the cancelled one.
abbrev pub without_active : Text → Option DownloadQueueItem → Option DownloadQueueItem
without_active s none = none
without_active s (some p) = if text_eq p.path s then none else some p

module _ (host : Host) where
  -- What a message does.
  unfoldable pub on_message : MessageSingleDownloader → Download (Unit {0})
  on_message (new_download s) =
      modify (λ d. record d { download_queue = d.download_queue ++ (s ∷ []) })
      >> write_queue host
      >> log_user new_download_text (dash ++ s.path)
  on_message (cancel_download s) =
      modify (λ d. record d {
        stop_downloading = true;
        download_queue = retain_other s d.download_queue;
        active_download_path = without_active s d.active_download_path;
      })
      >> write_queue host
      >> app_update_in_progress host
      >> log_user cancel_text (dash ++ s)
  on_message pause_downloads =
      modify (λ d. record d { stop_downloading = true; is_downloading_paused = true })
      >> log_user pause_text []
  on_message resume_downloads =
      modify (λ d. record d { is_downloading_paused = false }) >> log_user resume_text []
  on_message cancel_all_downloads =
      modify (λ d. record d {
        stop_downloading = true;
        download_queue = [];
        active_download_path = none;
      })
      >> write_queue host
      >> app_update_in_progress host
      >> log_user cancel_all_text []
  on_message remove_user =
      modify (λ d. record d {
        shutdown = true;
        stop_downloading = true;
        download_queue = [];
        active_download_path = none;
      })
      >> write_queue host
      >> log_user remove_text []
  on_message (new_shared_user s) =
      modify (λ d. record d { stop_downloading = true; shared_user = s })
      >> log_user update_user_text []
  on_message restart_connection =
      modify (λ d. record d { stop_downloading = true }) >> log_user restart_text []
  on_message (new_config config) =
      modify (λ d. record d { stop_downloading = true; config = config })
      >> log_user update_config_text []

  -- The loop, over what the polls find; each round polls both channels.
  unfoldable pub poll_loop : List (TryRecv MessageSingleDownloader) → Download (Unit {0})
  poll_loop [] = poll_reverse >> modify (λ d. record d { polls = [] })
  poll_loop (value m ∷ polls) =
      poll_reverse >> modify (λ d. record d { polls = polls }) >> on_message m >> poll_loop polls
  poll_loop (empty ∷ polls) = poll_reverse >> modify (λ d. record d { polls = polls })
  poll_loop (disconnected ∷ polls) =
      poll_reverse
      >> modify (λ d. record d { polls = disconnected ∷ polls })
      >> raise receiver_disconnected

  unfoldable pub read_receiver : Download (Unit {0})
  read_receiver d = poll_loop d.polls d
