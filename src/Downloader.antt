-- ===== src/Downloader.antt =====
-- One download thread: `SingleDownloader` of src/outgoing_downloader.rs. What the threads share
-- and the disk are part of its state, with the connection that `run` hands to its parts. `polls`
-- and `rev_polls` are what each `try_recv` will find, in order, and nothing once they are used
-- up. The app's receiver outlives the threads, so a send to it succeeds. The host machine is the
-- parameter `Host`; a write that fails leaves the disk as it was.
pub mod Texts
pub mod QueueFile
pub mod Receiver
pub mod Names
pub mod Transfer
pub mod Samples
mod Tests
use transmitic_core.Common.{
  ℕ, Bool, true, false, Option, none, some, List, [], ◌∷◌, ◌++◌, map, not, ok, err, text_eq,
  if◌then◌else◌, insert,
}
use transmitic_core.Common.Actions.{TryRecv, Action, pure, raise, modify}
use transmitic_core.Stream.{EncryptedStream, StreamError}
use transmitic_core.Config.{Config, SharedUser}
use transmitic_core.SharedFile.{SharedFile}
use transmitic_core.Uploader.{OwnedStream}
use transmitic_core.AppAggregator.{
  Text, AppAggMessage, offline, in_progress, completed, invalid_file,
}

pub record DownloadQueueItem : Type 0 where
  pub path : Text
  pub file_size : ℕ

pub data MessageSingleDownloader : Type 0 where
  new_config : Config → MessageSingleDownloader
  new_shared_user : SharedUser → MessageSingleDownloader
  new_download : DownloadQueueItem → MessageSingleDownloader
  cancel_all_downloads : MessageSingleDownloader
  cancel_download : Text → MessageSingleDownloader
  pause_downloads resume_downloads remove_user restart_connection : MessageSingleDownloader

pub data MessageRevSingleDownloader : Type 0 where
  new_connection : OwnedStream → MessageRevSingleDownloader

pub data RefreshSharedMessages : Type 0 where
  file_data : SharedFile → RefreshSharedMessages
  file_error : Text → RefreshSharedMessages

-- `recv` is what polling the channel will find; `everything_file` is the field `data`.
pub record InternalRefreshData : Type 0 where
  pub error : Option Text
  pub everything_file : Option SharedFile
  pub recv : Option (List (TryRecv RefreshSharedMessages))

pub data DownloadError : Type 0 where
  stream : StreamError → DownloadError
  receiver_disconnected cannot_write cannot_create : DownloadError
  no_separator invalid_size : Text → DownloadError
  cache_missing list_too_large list_not_utf8 list_not_parsed : DownloadError
  not_sanitized directory_too_large no_file_name out_of_fuel : DownloadError
  invalid_on_first_read : Text → DownloadError
  unexpected_first unexpected_later : ℕ → DownloadError
  disagreement : Bool → Bool → DownloadError

pub record SingleDownloader : Type 0 where
  pub polls : List (TryRecv MessageSingleDownloader)
  pub rev_polls : List (TryRecv MessageRevSingleDownloader)
  pub shared_user : SharedUser
  pub path_queue_file : Text
  pub download_queue : List DownloadQueueItem
  pub is_downloading_paused : Bool
  pub stop_downloading : Bool
  pub app_messages : List (AppAggMessage OwnedStream)
  pub active_download_path : Option DownloadQueueItem
  pub active_download_size : ℕ
  pub active_downloaded_current_bytes : ℕ
  pub active_download_local_path : Option Text
  pub active_download_total_size : Text
  pub shutdown : Bool
  pub reverse_connection : Option OwnedStream
  pub refresh_data : List (Text × InternalRefreshData)
  pub config : Config
  pub disk : List (Text × List ℕ)
  pub encrypted_stream : EncryptedStream

-- `writable` says whether a file can be opened to be written, and `creatable` whether
-- `create_dir_all` succeeds. `remove_error` is the text of the error with which a file that is
-- there cannot be removed. `elapsed` is the test of the clock at a number of bytes. `percent` is
-- the `f64` quotient of two sizes times 100 as `u64`. `trim` is that of Unicode. `from_json` is
-- serde_json on a file list.
pub record Host : Type 0 where
  pub writable : Text → Bool
  pub creatable : Text → Bool
  pub remove_error : Text → Option Text
  pub elapsed : ℕ → Bool
  pub percent : ℕ → ℕ → ℕ
  pub trim : Text → Text
  pub is_utf8 : List ℕ → Bool
  pub from_json : Text → Option SharedFile

abbrev pub Download : Type 0 → Type 0
Download A = Action SingleDownloader DownloadError A

-- `app_sender.send`
abbrev pub send : AppAggMessage OwnedStream → Download (Unit {0})
send m = modify (λ d. record d { app_messages = d.app_messages ++ (m ∷ []) })

-- `retain(|f| f.path != path)`
unfoldable pub retain_other : Text → List DownloadQueueItem → List DownloadQueueItem
retain_other path [] = []
retain_other path (f ∷ fs) =
    let rest = retain_other path fs in if not (text_eq f.path path) then f ∷ rest else rest

abbrev pub paths : List DownloadQueueItem → List Text
paths = map (λ f. f.path)

abbrev pub active_path : SingleDownloader → Option Text
active_path d = elim (d.active_download_path) [ none ↦ none | some p ↦ some (p.path) ]

unfoldable pub get_queue_without_active : SingleDownloader → List Text
get_queue_without_active d = elim (d.active_download_path) [
  | none ↦ paths d.download_queue
  | some p ↦ paths (retain_other p.path d.download_queue)
]

unfoldable pub app_update_offline : Download (Unit {0})
app_update_offline d =
    send
      (offline
        (record { nickname = d.shared_user.nickname; download_queue = paths d.download_queue }))
      d

unfoldable pub app_update_completed : Text → Text → Text → Download (Unit {0})
app_update_completed path path_local_disk size d =
    send
      (completed (record {
        nickname = d.shared_user.nickname;
        path = path;
        download_queue = get_queue_without_active d;
        path_local_disk = path_local_disk;
        size_string = size;
      }))
      d

unfoldable pub app_update_invalid_file : Text → Text → Download (Unit {0})
app_update_invalid_file path message d =
    send
      (invalid_file (record {
        nickname = d.shared_user.nickname;
        active_path = active_path d;
        invalid_path = path;
        download_queue = get_queue_without_active d;
        message = message;
      }))
      d

unfoldable pub app_update_in_progress : Host → Download (Unit {0})
app_update_in_progress host d =
    send
      (in_progress (record {
        nickname = d.shared_user.nickname;
        path = active_path d;
        percent = host.percent d.active_downloaded_current_bytes d.active_download_size;
        download_queue = get_queue_without_active d;
        path_local_disk = d.active_download_local_path;
        size_string = d.active_download_total_size;
      }))
      d

-- `fs::write` and its kin: the whole file.
unfoldable pub write_file : Host → Text → List ℕ → Download (Unit {0})
write_file host path content d =
    if host.writable path
    then (record d { disk = insert d.disk path content }, ok tt)
    else (d, err cannot_write)
