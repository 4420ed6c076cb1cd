-- ===== src/AppAggregator.antt =====
-- The loop that collects what the threads report: src/app_aggregator.rs, with the states of
-- src/transmitic_core.rs that it keeps. A message is handled as one step, which is what the
-- locks of the source make it. The connection and what starts a download on it are parameters;
-- the clock is as in the log. A step ends the process where the source calls `exit`.
pub mod Texts
pub mod Downloads
pub mod History
pub mod Isolation
mod Tests
use transmitic_core.Common.{
  ℕ, Bool, true, false, Option, none, some, List, [], ◌∷◌, ◌++◌, get, insert,
}
use transmitic_core.Logger
use transmitic_core.Logger.{Logger, LogLevel}
use Texts.{
  invalid_file_from, between, quote, download_completed, uploading_error, port_in_use_text,
  reverse_text,
}

abbrev pub Text : Type 0
Text = List ℕ

pub record InvalidFileMessage : Type 0 where
  pub nickname : Text
  pub active_path : Option Text
  pub invalid_path : Text
  pub download_queue : List Text
  pub message : Text

pub record InProgressMessage : Type 0 where
  pub nickname : Text
  pub path : Option Text
  pub percent : ℕ
  pub download_queue : List Text
  pub path_local_disk : Option Text
  pub size_string : Text

pub record CompletedMessage : Type 0 where
  pub nickname : Text
  pub path : Text
  pub download_queue : List Text
  pub path_local_disk : Text
  pub size_string : Text

pub record OfflineMessage : Type 0 where
  pub nickname : Text
  pub download_queue : List Text

pub record OfflineErrorMessage : Type 0 where
  pub nickname : Text
  pub error : Text

pub record InvalidResult : Type 0 where
  pub path : Text
  pub message : Text

pub record SingleDownloadState : Type 0 where
  pub active_download_path : Option Text
  pub active_download_percent : ℕ
  pub active_download_local_path : Option Text
  pub active_download_size : Text
  pub download_queue : List Text
  pub invalid_downloads : List InvalidResult
  pub completed_downloads : List CompletedMessage
  pub is_online : Bool
  pub error : Option Text

abbrev pub default : SingleDownloadState
default = record {
  active_download_path = none;
  active_download_percent = 0;
  active_download_local_path = none;
  active_download_size = [];
  download_queue = [];
  invalid_downloads = [];
  completed_downloads = [];
  is_online = true;
  error = none;
}

pub record SingleUploadState : Type 0 where
  pub nickname : Text
  pub path : Text
  pub percent : ℕ
  pub is_online : Bool

pub data IncomingUploaderError : Type 0 where
  port_in_use : IncomingUploaderError
  generic : Text → IncomingUploaderError

pub data AppAggMessage (Connection : Type 0) : Type 0 where
  log_debug log_info log_warning log_error log_critical : Text → AppAggMessage Connection
  set_log_level : LogLevel → AppAggMessage Connection
  log_to_file_state : Bool → AppAggMessage Connection
  invalid_file : InvalidFileMessage → AppAggMessage Connection
  in_progress : InProgressMessage → AppAggMessage Connection
  completed : CompletedMessage → AppAggMessage Connection
  offline : OfflineMessage → AppAggMessage Connection
  offline_error : OfflineErrorMessage → AppAggMessage Connection
  upload_state_change : SingleUploadState → AppAggMessage Connection
  upload_disconnected upload_error_generic : Text → AppAggMessage Connection
  upload_error_port_in_use : AppAggMessage Connection
  app_failed_kill : Text → AppAggMessage Connection
  reverse_connection : Connection → AppAggMessage Connection

pub record State (Downloader : Type 0) : Type 0 where
  pub download_state : List (Text × SingleDownloadState)
  pub upload_state : List (Text × SingleUploadState)
  pub logger : Logger
  pub incoming_uploader_error : Option IncomingUploaderError
  pub outgoing_downloader : Downloader

-- The loop goes on, or the process ends with an exit code.
pub data Next (S : Type 0) : Type 0 where
  goes_on : S → Next S
  exits : ℕ → Next S

-- The exit code of `AppFailedKill`.
abbrev pub app_failed_kill_code : ℕ
app_failed_kill_code = 3

-- `get_mut`, and `insert` where there is no entry.
unfoldable pub update {ℓ} : {V : Type ℓ} → List (Text × V) → Text → (V → V) → V → List (Text × V)
update m nickname change fresh = elim (get m nickname) [
  | some h ↦ insert m nickname (change h)
  | none ↦ insert m nickname fresh
]

unfoldable pub on_invalid_file : InvalidFileMessage → SingleDownloadState → SingleDownloadState
on_invalid_file f h = record h {
  active_download_path = f.active_path;
  invalid_downloads =
      h.invalid_downloads ++ (record { path = f.invalid_path; message = f.message } ∷ []);
  download_queue = f.download_queue;
  is_online = true;
}

unfoldable pub new_invalid_file : InvalidFileMessage → SingleDownloadState
new_invalid_file f = record default {
  active_download_path = f.active_path;
  invalid_downloads = record { path = f.invalid_path; message = f.message } ∷ [];
  download_queue = f.download_queue;
}

unfoldable pub on_in_progress : InProgressMessage → SingleDownloadState → SingleDownloadState
on_in_progress f h = record h {
  active_download_path = f.path;
  active_download_percent = f.percent;
  active_download_local_path = f.path_local_disk;
  download_queue = f.download_queue;
  is_online = true;
  active_download_size = f.size_string;
}

unfoldable pub new_in_progress : InProgressMessage → SingleDownloadState
new_in_progress f = record default {
  active_download_path = f.path;
  active_download_local_path = f.path_local_disk;
  active_download_percent = f.percent;
  download_queue = f.download_queue;
  active_download_size = f.size_string;
}

unfoldable pub on_completed : CompletedMessage → SingleDownloadState → SingleDownloadState
on_completed f h = record h {
  completed_downloads = h.completed_downloads ++ (f ∷ []);
  download_queue = f.download_queue;
  active_download_path = none;
  active_download_local_path = some f.path_local_disk;
  is_online = true;
}

unfoldable pub new_completed : CompletedMessage → SingleDownloadState
new_completed f = record default {
  completed_downloads = f ∷ [];
  download_queue = f.download_queue;
  active_download_path = none;
}

unfoldable pub on_offline : OfflineMessage → SingleDownloadState → SingleDownloadState
on_offline f h = record h { is_online = false; download_queue = f.download_queue; error = none }

unfoldable pub on_offline_error : OfflineErrorMessage → SingleDownloadState → SingleDownloadState
on_offline_error f h = record h { is_online = false; error = some f.error }

module _ {Connection Downloader : Type 0}
    (start_downloading_single_user : Connection → Downloader → Downloader)
    (secs : Option Text) where
  unfoldable pub log_message : State Downloader → Text → LogLevel → State Downloader
  log_message s message log_level = record s {
    logger = transmitic_core.Logger.log_message s.logger log_level secs message;
  }

  -- One round of `app_loop`.
  unfoldable pub app_step : State Downloader → AppAggMessage Connection → Next (State Downloader)
  app_step s (invalid_file f) =
      let s =
        log_message s (invalid_file_from ++ f.nickname ++ between ++ f.invalid_path ++ quote)
          LogLevel.warning in
      goes_on (record s {
        download_state =
            update s.download_state f.nickname (on_invalid_file f) (new_invalid_file f);
      })
  app_step s (in_progress f) = goes_on (record s {
    download_state = update s.download_state f.nickname (on_in_progress f) (new_in_progress f);
  })
  app_step s (completed f) =
      let s =
        log_message s (download_completed ++ f.nickname ++ between ++ f.path_local_disk ++ quote)
          LogLevel.info in
      goes_on (record s {
        download_state = update s.download_state f.nickname (on_completed f) (new_completed f);
      })
  app_step s (offline f) = goes_on (record s {
    download_state = update s.download_state f.nickname (on_offline f) (on_offline f default);
  })
  app_step s (offline_error f) = goes_on (record s {
    download_state =
        update s.download_state f.nickname (on_offline_error f) (on_offline_error f default);
  })
  app_step s (upload_state_change f) =
      goes_on (record s { upload_state = insert s.upload_state f.nickname f })
  app_step s (upload_disconnected nickname) =
      let s = log_message s (Texts.upload_disconnected ++ nickname ++ quote) LogLevel.debug in
      goes_on (record s {
        upload_state = elim (get s.upload_state nickname) [
          | some state ↦ insert s.upload_state nickname (record state { is_online = false })
          | none ↦ s.upload_state
        ];
      })
  app_step s (app_failed_kill text) = exits app_failed_kill_code
  app_step s (log_debug message) = goes_on (log_message s message LogLevel.debug)
  app_step s (log_info message) = goes_on (log_message s message LogLevel.info)
  app_step s (log_warning message) = goes_on (log_message s message LogLevel.warning)
  app_step s (log_error message) = goes_on (log_message s message LogLevel.error)
  app_step s (log_critical message) = goes_on (log_message s message LogLevel.critical)
  app_step s (set_log_level level) =
      goes_on (record s { logger = transmitic_core.Logger.set_log_level s.logger level })
  app_step s (log_to_file_state state) =
      goes_on (record s { logger = transmitic_core.Logger.set_is_file_logging s.logger state })
  app_step s (upload_error_generic string) =
      let s = log_message s (uploading_error ++ string) LogLevel.error in
      goes_on (record s { incoming_uploader_error = some (generic string) })
  app_step s upload_error_port_in_use =
      let s = log_message s port_in_use_text LogLevel.error in
      goes_on (record s { incoming_uploader_error = some port_in_use })
  app_step s (reverse_connection stream) =
      let s = log_message s reverse_text LogLevel.info in
      goes_on (record s {
        outgoing_downloader = start_downloading_single_user stream s.outgoing_downloader;
      })
