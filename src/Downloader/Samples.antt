-- ===== src/Downloader/Samples.antt =====
-- A machine that allows everything, and a downloader of src/outgoing_downloader.rs on it.
use transmitic_core.Common.{true, false, none, [], ◌∷◌}
use transmitic_core.Stream.{EncryptedStream}
use transmitic_core.Config.{Config}
use transmitic_core.SharedFile.{SizeFormat}
use transmitic_core.AppAggregator.{Text}
use transmitic_core.Downloader.{SingleDownloader, Host}

abbrev pub machine : Host
machine = record {
  writable = λ path. true;
  creatable = λ path. true;
  remove_error = λ path. none;
  elapsed = λ bytes. false;
  percent = λ part whole. 0;
  trim = λ s. s;
  is_utf8 = λ bytes. true;
  from_json = λ text. none;
}

abbrev pub format : SizeFormat
format = record { whole = λ n. []; rounded = λ n divisor. [] }

abbrev pub no_stream : EncryptedStream
no_stream = record {
  stream = record { inbound = []; outbound = []; broken = false };
  nonce = 0;
  crypto_buffer = [];
  buffer = [];
  reverse_message = 0;
}

abbrev pub settings : Config
settings = record {
  first_start = false;
  config_file = record {
    my_private_id = [];
    shared_users = [];
    shared_files = [];
    sharing_port = [];
    ignore_incoming = false;
    reverse_connection = false;
    path_downloads = [];
  };
  local_private_key_bytes = [];
  password = none;
  nonce = 0;
  iterations = 0;
  config_version = 0;
}

abbrev pub queue_file : Text
queue_file = b'q' ∷ []

abbrev pub unasked : SingleDownloader
unasked = record {
  polls = [];
  rev_polls = [];
  shared_user = record { nickname = b'a' ∷ []; public_id = []; ip = []; port = []; allowed = true };
  path_queue_file = queue_file;
  download_queue = [];
  is_downloading_paused = true;
  stop_downloading = false;
  app_messages = [];
  active_download_path = none;
  active_download_size = 0;
  active_downloaded_current_bytes = 0;
  active_download_local_path = none;
  active_download_total_size = [];
  shutdown = false;
  reverse_connection = none;
  refresh_data = [];
  config = settings;
  disk = [];
  encrypted_stream = no_stream;
}
