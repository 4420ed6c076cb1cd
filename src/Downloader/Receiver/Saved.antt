-- ===== src/Downloader/Receiver/Saved.antt =====
-- `read_receiver` of src/outgoing_downloader.rs and the queue file.
use transmitic_core.Common.{◌≡◌, true, List, [], ◌∷◌, ◌++◌, none, All, ok}
use transmitic_core.Common.Actions.{TryRecv, Leads, then_do, then_do-Leads}
use transmitic_core.AppAggregator.{Text}
use transmitic_core.Downloader.{
  SingleDownloader, MessageSingleDownloader, new_config, new_shared_user, new_download,
  cancel_all_downloads, cancel_download, pause_downloads, resume_downloads, remove_user,
  restart_connection, retain_other, Host, Download, app_update_in_progress,
}
use transmitic_core.Downloader.QueueFile.{queue_text, write_queue, initialize_download_queue}
use transmitic_core.Downloader.QueueFile.RoundTrip.{
  IsSaved, IsQueued, write_queue-IsSaved, initialize-IsSaved,
}
use transmitic_core.Downloader.Receiver.Rounds.{poll_reverse-Leads, poll_loop-Leads_all}
use transmitic_core.Downloader.Receiver.{on_message, poll_loop, read_receiver, without_active}

module _ (host : Host) (path : Text) (writable : host.writable path ≡ true) where
  -- Behind a change of the queue, what saves it and then logs.
  queue_then :
      (k : Download (Unit {0})) (d : SingleDownloader)
      → d.path_queue_file ≡ path
      → Leads (IsSaved path) (IsSaved path) k
      → IsSaved path (then_do (write_queue host d) (λ _. k)).0
  queue_then k d at h =
      then_do-Leads {Q = IsSaved path} (write_queue host d) (λ _. k)
        (write_queue-IsSaved host path writable d at) (λ _. h)

  in_progress-IsSaved : Leads (IsSaved path) (IsSaved path) (app_update_in_progress host)
  unfolding app_update_in_progress
  in_progress-IsSaved d h = h

  on_message-IsSaved :
      (m : MessageSingleDownloader) → Leads (IsSaved path) (IsSaved path) (on_message host m)
  unfolding on_message app_update_in_progress
  on_message-IsSaved (new_download s) d h =
      queue_then _ (record d { download_queue = d.download_queue ++ (s ∷ []) }) h.0 (λ d h. h)
  on_message-IsSaved (cancel_download s) d h =
      queue_then _
        (record d {
          stop_downloading = true;
          download_queue = retain_other s d.download_queue;
          active_download_path = without_active s d.active_download_path;
        })
        h.0 (λ d h. h)
  on_message-IsSaved pause_downloads d h = h
  on_message-IsSaved resume_downloads d h = h
  on_message-IsSaved cancel_all_downloads d h =
      queue_then _
        (record d { stop_downloading = true; download_queue = []; active_download_path = none }) h.0
        (λ d h. h)
  on_message-IsSaved remove_user d h =
      queue_then _
        (record d {
          shutdown = true;
          stop_downloading = true;
          download_queue = [];
          active_download_path = none;
        })
        h.0 (λ d h. h)
  on_message-IsSaved (new_shared_user s) d h = h
  on_message-IsSaved restart_connection d h = h
  on_message-IsSaved (new_config config) d h = h

  poll_loop-IsSaved :
      (polls : List (TryRecv MessageSingleDownloader))
      → Leads (IsSaved path) (IsSaved path) (poll_loop host polls)
  poll_loop-IsSaved =
      poll_loop-Leads_all (IsSaved path) host (λ d polls h. h)
        (poll_reverse-Leads (IsSaved path) (λ d polls h. h) (λ d polls enc h. h)) on_message-IsSaved

  -- If the queue file can be written, then where it holds the queue it still does after
  -- `read_receiver`, whatever messages were found and also after an error: a downloader that
  -- starts anew on that disk at that path finds the queue, where the file is text and holds its lines.
  pub initialize-read_receiver :
      (d d' : SingleDownloader)
      → IsSaved path d
      → All (IsQueued host) (read_receiver host d).0.download_queue
      → host.is_utf8 (queue_text (read_receiver host d).0.download_queue) ≡ true
      → d'.path_queue_file ≡ path
      → d'.disk ≡ (read_receiver host d).0.disk
      → initialize_download_queue host d'
        ≡ (record d' { download_queue = (read_receiver host d).0.download_queue }, ok tt)
  unfolding read_receiver
  initialize-read_receiver d d' saved queued text at same =
      initialize-IsSaved host path writable (read_receiver host d).0 d'
        (poll_loop-IsSaved d.polls d saved) queued text at same
