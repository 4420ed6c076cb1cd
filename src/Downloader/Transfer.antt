-- ===== src/Downloader/Transfer.antt =====
-- What a downloader of src/outgoing_downloader.rs does on its connection: the file list of the
-- peer, and one shared file with all that it holds. The streams of a loop carry a frame for each
-- round, so the input's length is fuel enough. A file that could be opened can be written.
pub mod Kept
pub mod Inside
use transmitic_core.Common.{
  ℕ, zero, suc, ◌+◌, Bool, true, false, not, ◌||◌, ◌&&◌, Option, none, some, List, [], ◌∷◌, ◌++◌,
  Outcome, ok, err, panic, text_eq, if◌then◌else◌, ltb, ◌==◌, length, get, insert, to_be_bytes,
}
use transmitic_core.Common.Actions.{Action, pure, raise, gets, modify, lift, some_or, ◌>>=◌, ◌>>◌}
use transmitic_core.Stream.Sealing.{Cipher}
use transmitic_core.Stream
use transmitic_core.Stream.{EncryptedStream, StreamError}
use transmitic_core.Stream.Consts.{
  msg_file_list, msg_file_list_final, msg_file_chunk, msg_file_finished, msg_file_invalid_file,
  msg_file_selection_continue, msg_reverse,
}
use transmitic_core.SharedFile
use transmitic_core.SharedFile.{
  SharedFile, shared_file, Files, nil, cons, file_size, SizeFormat, remove_invalid_files,
  reset_file_size_string,
}
use transmitic_core.AppAggregator.{Text, log_info}
use transmitic_core.Downloader.{
  SingleDownloader, DownloadQueueItem, DownloadError, cannot_write, cannot_create, cache_missing,
  list_too_large, list_not_utf8, list_not_parsed, directory_too_large, out_of_fuel,
  invalid_on_first_read, unexpected_first, unexpected_later, Host, Download, send, write_file,
  app_update_completed, app_update_invalid_file, app_update_in_progress, InternalRefreshData,
}
use transmitic_core.Downloader.QueueFile.{set_active_download_finished}
use transmitic_core.Downloader.Receiver.{read_receiver}
use transmitic_core.Downloader.Names.{get_sanitized_disk_file_name}
use transmitic_core.Downloader.Texts.{
  quote, everything_text, size_changed, file_larger, directory_larger, subfile_larger, subfile_done,
  quote_dash, disagreement, remote_finished, suggestion, true_text, false_text,
}

abbrev pub max_everything_file_size : ℕ
max_everything_file_size = 100_000_000

-- What a call on the stream does to the thread. After an error the stream is dropped.
abbrev pub set_stream :
    SingleDownloader
    → Outcome StreamError EncryptedStream
    → SingleDownloader × Outcome DownloadError (Unit {0})
set_stream d (ok s) = (record d { encrypted_stream = s }, ok tt)
set_stream d (err e) = (d, err (DownloadError.stream e))
set_stream d panic = (d, panic)

abbrev pub stream_value : {A : Type 0} → Outcome StreamError A → Outcome DownloadError A
stream_value (ok a) = ok a
stream_value (err e) = err (DownloadError.stream e)
stream_value panic = panic

module _ (cipher : Cipher) where
  abbrev pub read : Download (Unit {0})
  read d = set_stream d (Stream.read cipher d.encrypted_stream)

  abbrev pub write : ℕ → List ℕ → Download (Unit {0})
  write msg payload d = set_stream d (Stream.write cipher d.encrypted_stream msg payload)

  abbrev pub get_payload : Download (List ℕ)
  get_payload d = (d, stream_value (Stream.get_payload cipher d.encrypted_stream))

abbrev pub get_message : Download ℕ
get_message d = (d, stream_value (Stream.get_message d.encrypted_stream))

-- As many rounds as there are bytes to read, and one.
abbrev pub rounds : SingleDownloader → ℕ
rounds d = suc (length d.encrypted_stream.stream.inbound)

module _ (cipher : Cipher) (host : Host) (format : SizeFormat) where
  -- The loop of `download_everything_file`.
  unfoldable pub receive_list : ℕ → List ℕ → Download (List ℕ)
  receive_list zero json_bytes = raise out_of_fuel
  receive_list (suc fuel) json_bytes = do
    read cipher
    client_message ← get_message
    payload ← get_payload cipher
    let again = receive_list fuel (json_bytes ++ payload)
    if ltb max_everything_file_size (length (json_bytes ++ payload))
        then raise list_too_large
        else (if client_message == msg_file_list_final then pure (json_bytes ++ payload) else again)

  unfoldable pub download_everything_file : Download SharedFile
  download_everything_file = do
    write cipher msg_file_list []
    fuel ← gets rounds
    json_bytes ← receive_list fuel []
    files_str ← some_or (if host.is_utf8 json_bytes then some json_bytes else none) list_not_utf8
    everything_file ← some_or (host.from_json files_str) list_not_parsed
    pure (reset_file_size_string format (remove_invalid_files everything_file))

  -- Whether the list must be downloaded although nobody forces it.
  abbrev pub needs_list : Option InternalRefreshData → Download Bool
  needs_list none = raise cache_missing
  needs_list (some data') = elim (data'.everything_file) [ none ↦ pure true | some f ↦ pure false ]

  unfoldable pub set_everything_file : Bool → Download (Unit {0})
  set_everything_file force_download = do
    reverse_message ← gets (λ d. d.encrypted_stream.reverse_message)
    nickname ← gets (λ d. d.shared_user.nickname)
    cached ← gets (λ d. get d.refresh_data nickname)
    should_download_everything_file ←
        if (reverse_message == msg_reverse) || force_download then pure true else needs_list cached
    if should_download_everything_file
        then (do
          send (log_info (everything_text ++ nickname ++ quote))
          everything_file ← download_everything_file
          modify (λ d. record d {
            refresh_data =
                insert d.refresh_data nickname
                  (record { error = none; everything_file = some everything_file; recv = none });
          }))
        else pure tt

  abbrev pub print_bool : Bool → Text
  print_bool b = if b then true_text else false_text

  -- `f.write_all` at the end of the file.
  unfoldable pub append_file : Text → List ℕ → Download (Unit {0})
  append_file path payload d = elim (get d.disk path) [
    | none ↦ (record d { disk = insert d.disk path payload }, ok tt)
    | some content ↦ (record d { disk = insert d.disk path (content ++ payload) }, ok tt)
  ]

  module _ (file : SharedFile) (queue_download : DownloadQueueItem) (destination_path : Text) where
    abbrev pub is_queue_file_downloading : Bool
    is_queue_file_downloading = text_eq (SharedFile.path file) queue_download.path

    -- The queue moves on, and the download is complete.
    unfoldable pub complete : Download (Unit {0})
    complete = do
      set_active_download_finished host
      size ← gets (λ d. d.active_download_total_size)
      app_update_completed queue_download.path destination_path size

    -- One side has finished the file and the other has not.
    unfoldable pub disagree : Bool → Bool → Download (Unit {0})
    disagree is_local_finished is_remote_finished = do
      (if is_queue_file_downloading then set_active_download_finished host else pure tt)
      app_update_invalid_file (SharedFile.path file) (
          disagreement
          ++ print_bool is_local_finished
          ++ remote_finished
          ++ print_bool is_remote_finished
          ++ suggestion)
      raise (DownloadError.disagreement is_local_finished is_remote_finished)

    -- The loop over the pieces of the file, on fuel.
    unfoldable pub receive_file : ℕ → ℕ → ℕ → Download (Unit {0})
    receive_file zero remote_message current_downloaded_bytes = raise out_of_fuel
    receive_file (suc fuel) remote_message current_downloaded_bytes = do
      payload_bytes ← get_payload cipher
      let current = current_downloaded_bytes + length payload_bytes
      modify (λ d. record d {
        active_downloaded_current_bytes = d.active_downloaded_current_bytes + length payload_bytes;
      })
      append_file destination_path payload_bytes
      bytes ← gets (λ d. d.active_downloaded_current_bytes)
      (if host.elapsed bytes then app_update_in_progress host else pure tt)
      let is_remote_finished = remote_message == msg_file_finished
      let is_local_finished =
          current
          == (if is_queue_file_downloading then queue_download.file_size else file_size file)
      if is_remote_finished && is_local_finished
          then (if is_queue_file_downloading then complete else pure tt)
          else if is_remote_finished || is_local_finished
          then disagree is_local_finished is_remote_finished
          else (do
            read cipher
            next_message ← get_message
            let again = receive_file fuel next_message current
            if not (next_message == msg_file_chunk) && not (next_message == msg_file_finished)
                then raise (unexpected_later next_message)
                else (do
                  read_receiver host
                  stop_downloading ← gets (λ d. d.stop_downloading)
                  if stop_downloading then pure tt else again))

    -- The file is asked of the peer, from the length that is on the disk.
    unfoldable pub request_file : Text → List ℕ → Download (Unit {0})
    request_file download_dir present = do
      fuel ← gets rounds
      write cipher msg_file_selection_continue
          (to_be_bytes 8 (length present) ++ SharedFile.path file)
      read cipher
      remote_message ← get_message
      if remote_message == msg_file_invalid_file
          then (set_everything_file true >> raise (invalid_on_first_read (SharedFile.path file)))
          else if not (remote_message == msg_file_chunk)
              && not (remote_message == msg_file_finished)
          then raise (unexpected_first remote_message)
          else (do
            (if host.creatable download_dir then pure tt else raise cannot_create)
            write_file host destination_path present
            receive_file fuel remote_message (length present))

    -- A file that is complete because it is empty is created without asking.
    unfoldable pub create_empty : Text → Option (List ℕ) → Download (Unit {0})
    create_empty download_dir (some content) = pure tt
    create_empty download_dir none =
        if file_size file == 0
        then (do
          (if host.creatable download_dir then pure tt else raise cannot_create)
          write_file host destination_path [])
        else pure tt

    -- The file that the queue names.
    unfoldable pub download_queued : Text → Option (List ℕ) → List ℕ → Download (Unit {0})
    download_queued download_dir on_disk present =
        if not (queue_download.file_size == file_size file)
        then (set_active_download_finished host
            >> app_update_invalid_file queue_download.path size_changed)
        else if ltb (length present) queue_download.file_size
        then request_file download_dir present
        else if length present == queue_download.file_size
        then (create_empty download_dir on_disk >> complete)
        else (set_active_download_finished host
            >> app_update_invalid_file queue_download.path file_larger)

    -- A file below the directory that the queue names.
    unfoldable pub download_subfile : Text → Option (List ℕ) → List ℕ → Download (Unit {0})
    download_subfile download_dir on_disk present = do
      bytes ← gets (λ d. d.active_downloaded_current_bytes)
      nickname ← gets (λ d. d.shared_user.nickname)
      if ltb queue_download.file_size bytes
          then (do
            set_active_download_finished host
            app_update_invalid_file queue_download.path directory_larger
            raise directory_too_large)
          else if ltb (length present) (file_size file)
          then request_file download_dir present
          else if length present == file_size file
          then (create_empty download_dir on_disk
              >> send (log_info (subfile_done ++ nickname ++ quote_dash ++ SharedFile.path file)))
          else app_update_invalid_file (SharedFile.path file) subfile_larger

  abbrev pub bytes_of : Option (List ℕ) → List ℕ
  bytes_of none = []
  bytes_of (some content) = content

  -- The active download, which `run` has set.
  abbrev pub unwrap_active : Option DownloadQueueItem → Outcome DownloadError DownloadQueueItem
  unwrap_active none = panic
  unwrap_active (some p) = ok p

  -- The branch of a file that is no directory.
  unfoldable pub download_file : SharedFile → Text → Text → Download (Unit {0})
  download_file file download_dir destination_path = do
    on_disk ← gets (λ d. get d.disk destination_path)
    modify (λ d. record d {
      active_downloaded_current_bytes =
          d.active_downloaded_current_bytes + length (bytes_of on_disk);
    })
    active ← gets (λ d. d.active_download_path)
    queue_download ← lift (unwrap_active active)
    if is_queue_file_downloading file queue_download destination_path
        then download_queued file queue_download destination_path download_dir on_disk
            (bytes_of on_disk)
        else download_subfile file queue_download destination_path download_dir on_disk
            (bytes_of on_disk)

  unfoldable mutual
    pub download_shared_file : SharedFile → Text → Download (Unit {0})
    download_shared_file (shared_file p is_directory fs size string) download_dir = do
      current_path_name ←
          lift (get_sanitized_disk_file_name (shared_file p is_directory fs size string))
      elim is_directory as (λ b. Download (Unit {0})) [
        | true ↦ download_files fs (download_dir ++ (current_path_name ++ (b'/' ∷ [])))
        | false ↦
            download_file (shared_file p false fs size string) download_dir
              (download_dir ++ current_path_name)
      ]

    -- The loop over the files of a directory.
    pub download_files : Files → Text → Download (Unit {0})
    download_files nil new_download_dir = pure tt
    download_files (cons f fs) new_download_dir =
        let later = download_files fs new_download_dir in
        do
          download_shared_file f new_download_dir
          read_receiver host
          stop_downloading ← gets (λ d. d.stop_downloading)
          if stop_downloading then pure tt else later
