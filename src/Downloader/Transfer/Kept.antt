-- ===== src/Downloader/Transfer/Kept.antt =====
-- Predicates that a download of src/outgoing_downloader.rs keeps: those that the queue file keeps and
-- that read nothing but the disk and the place of the queue file.
use transmitic_core.Common.{
  ℕ, zero, suc, ◌+◌, ◌≡◌, refl, true, not, ◌||◌, ◌&&◌, Bool, Bool-cases, Option-cases, inl, inr,
  Option, none, some, List, [], ◌++◌, ◌==◌, Outcome, ok, err, panic, get, insert, if◌then◌else◌,
  length, ltb,
}
use transmitic_core.Common.Actions.{
  Leads, then_do, then_do-Leads, if-Leads, some_or-Leads, some_or, pure, raise, lift, ◌>>◌,
}
use transmitic_core.Stream
use transmitic_core.Stream.Sealing.{Cipher}
use transmitic_core.Stream.Consts.{
  msg_file_list_final, msg_file_chunk, msg_file_finished, msg_file_invalid_file, msg_reverse,
}
use transmitic_core.Stream.{EncryptedStream, StreamError}
use transmitic_core.SharedFile.{SharedFile, SizeFormat, file_size}
use transmitic_core.AppAggregator.{Text}
use transmitic_core.Downloader.{
  SingleDownloader, DownloadQueueItem, MessageSingleDownloader, new_config, new_shared_user,
  new_download, cancel_all_downloads, cancel_download, pause_downloads, resume_downloads,
  remove_user, restart_connection, Host, Download, DownloadError, list_not_utf8, list_not_parsed,
  cannot_create, write_file, app_update_in_progress, app_update_completed, app_update_invalid_file,
  InternalRefreshData,
}
use transmitic_core.Downloader.QueueFile.{write_queue, set_active_download_finished}
use transmitic_core.Downloader.Receiver.Rounds.{poll_reverse-Leads, poll_loop-Leads_all}
use transmitic_core.Downloader.Receiver.{on_message, read_receiver}
use transmitic_core.Downloader.Transfer
use transmitic_core.Downloader.Transfer.{
  set_stream, stream_value, needs_list, receive_list, download_everything_file, set_everything_file,
  append_file, complete, disagree, receive_file, request_file, create_empty, download_queued,
  download_subfile, download_file, is_queue_file_downloading, max_everything_file_size, get_message,
  get_payload, bytes_of, unwrap_active,
}

module _ (host : Host) (Q : SingleDownloader → Type 0)
    (same : (d d' : SingleDownloader)
      → d'.disk ≡ d.disk
      → d'.path_queue_file ≡ d.path_queue_file
      → Q d
      → Q d')
    (queue : Leads Q Q (write_queue host)) where
  -- A change of nothing that the predicate reads.
  quiet :
      {d d' : SingleDownloader}
      → d'.disk ≡ d.disk
      → d'.path_queue_file ≡ d.path_queue_file
      → Q d
      → Q d'
  quiet {d} {d'} = same d d'

  -- A step, and what follows it.
  step :
      {A B : Type 0} (r : SingleDownloader × Outcome DownloadError A) (f : A → Download B)
      → Q r.0
      → ((a : A) → Leads Q Q (f a))
      → Q (then_do r f).0
  step r f = then_do-Leads {Q = Q} r f

  queue_then :
      (k : Download (Unit {0})) (d : SingleDownloader)
      → Q d
      → Leads Q Q k
      → Q (then_do (write_queue host d) (λ _. k)).0
  queue_then k d h log = step (write_queue host d) (λ _. k) (queue d h) (λ _. log)

  on_message-Leads : (m : MessageSingleDownloader) → Leads Q Q (on_message host m)
  unfolding on_message app_update_in_progress
  on_message-Leads (new_download f) d h =
      queue_then _ _ (quiet refl refl h) (λ d h. quiet refl refl h)
  on_message-Leads (cancel_download t) d h =
      queue_then _ _ (quiet refl refl h) (λ d h. quiet refl refl h)
  on_message-Leads pause_downloads d h = quiet refl refl h
  on_message-Leads resume_downloads d h = quiet refl refl h
  on_message-Leads cancel_all_downloads d h =
      queue_then _ _ (quiet refl refl h) (λ d h. quiet refl refl h)
  on_message-Leads remove_user d h = queue_then _ _ (quiet refl refl h) (λ d h. quiet refl refl h)
  on_message-Leads (new_shared_user u) d h = quiet refl refl h
  on_message-Leads restart_connection d h = quiet refl refl h
  on_message-Leads (new_config config) d h = quiet refl refl h

  pub read_receiver-Leads : Leads Q Q (read_receiver host)
  unfolding read_receiver
  read_receiver-Leads d h =
      poll_loop-Leads_all Q host (λ d polls h. quiet refl refl h)
        (poll_reverse-Leads Q (λ d polls h. quiet refl refl h) (λ d polls enc h. quiet refl refl h))
        on_message-Leads d.polls d h

  set_active_download_finished-Leads : Leads Q Q (set_active_download_finished host)
  unfolding set_active_download_finished
  set_active_download_finished-Leads d h =
      step (write_queue host _) _ (queue _ (quiet refl refl h)) (λ _ d h. quiet refl refl h)

  app_update_in_progress-Leads : Leads Q Q (app_update_in_progress host)
  unfolding app_update_in_progress
  app_update_in_progress-Leads d h = quiet refl refl h

  app_update_completed-Leads : (a b c : Text) → Leads Q Q (app_update_completed a b c)
  unfolding app_update_completed
  app_update_completed-Leads a b c d h = quiet refl refl h

  app_update_invalid_file-Leads : (a b : Text) → Leads Q Q (app_update_invalid_file a b)
  unfolding app_update_invalid_file
  app_update_invalid_file-Leads a b d h = quiet refl refl h

  set_stream-Leads :
      (d : SingleDownloader) (r : Outcome StreamError EncryptedStream) → Q d → Q (set_stream d r).0
  set_stream-Leads d (ok s) h = quiet refl refl h
  set_stream-Leads d (err e) h = h
  set_stream-Leads d panic h = h

  module _ (cipher : Cipher) (format : SizeFormat) where
    read-Leads : Leads Q Q (Transfer.read cipher)
    read-Leads d h = set_stream-Leads d (Stream.read cipher d.encrypted_stream) h

    write-Leads : (msg : ℕ) (payload : List ℕ) → Leads Q Q (Transfer.write cipher msg payload)
    write-Leads msg payload d h =
        set_stream-Leads d (Stream.write cipher d.encrypted_stream msg payload) h

    receive_list-Leads :
        (fuel : ℕ) (json : List ℕ) → Leads Q Q (receive_list cipher host format fuel json)
    unfolding receive_list
    receive_list-Leads zero json = λ d h. h
    receive_list-Leads (suc fuel) json = λ d h.
        step (Transfer.read cipher d) _ (read-Leads d h) λ _ d h. step (get_message d) _ h λ m d h.
          step (get_payload cipher d) _ h λ payload.
            if-Leads Q (ltb max_everything_file_size (length (json ++ payload))) _ _ (λ d h. h)
              (if-Leads Q (m == msg_file_list_final) _ _ (λ d h. h)
                (receive_list-Leads fuel (json ++ payload)))

    download_everything_file-Leads : Leads Q Q (download_everything_file cipher host format)
    unfolding download_everything_file
    download_everything_file-Leads d h =
        step (Transfer.write cipher _ _ d) _ (write-Leads _ _ d h) λ _ d h.
          step (receive_list cipher host format _ [] d) _ (receive_list-Leads _ [] d h) λ json d h.
            let text = if host.is_utf8 json then some json else none in
            step (some_or text list_not_utf8 d) _ (some_or-Leads Q text list_not_utf8 d h)
              λ text d h.
                step (some_or (host.from_json text) list_not_parsed d) _
                  (some_or-Leads Q (host.from_json text) list_not_parsed d h) λ file d h. h

    needs_list-Leads :
        (cached : Option InternalRefreshData) → Leads Q Q (needs_list cipher host format cached)
    needs_list-Leads none d h = h
    needs_list-Leads (some cached) d h =
        elim (cached.everything_file)
          as (λ f.
            Q (needs_list cipher host format (some (record cached { everything_file = f })) d).0) [
              | none ↦ h
              | some f ↦ h
            ]

    set_everything_file-Leads :
        (force : Bool) → Leads Q Q (set_everything_file cipher host format force)
    unfolding set_everything_file
    set_everything_file-Leads force d h =
        let cached = get d.refresh_data d.shared_user.nickname in
        let forced = (d.encrypted_stream.reverse_message == msg_reverse) || force in
        let download : Download Bool =
          if forced then pure true else needs_list cipher host format cached in
        step (download d) _ (if-Leads Q forced _ _ (λ d h. h) (needs_list-Leads cached) d h) λ b.
          if-Leads Q b _ _
            (λ d h.
              step (download_everything_file cipher host format _) _
                (download_everything_file-Leads _ (quiet refl refl h))
                λ file d h. quiet refl refl h)
            (λ d h. h)

    module _ (destination_path : Text)
        (written : (bytes : List ℕ) (d : SingleDownloader)
          → Q d
          → Q (record d { disk = insert d.disk destination_path bytes })) where
      append_file-Leads :
          (payload : List ℕ) → Leads Q Q (append_file cipher host format destination_path payload)
      unfolding append_file
      append_file-Leads payload d h = elim (Option-cases (get d.disk destination_path)) [
        | inl missing ↦ rw (append_file, missing) (written payload d h)
        | inr (content, there) ↦ rw (append_file, there) (written (content ++ payload) d h)
      ]

      write_file-Leads : (bytes : List ℕ) → Leads Q Q (write_file host destination_path bytes)
      unfolding write_file
      write_file-Leads bytes d h = elim (Bool-cases (host.writable destination_path)) [
        | inl w ↦ rw w (written bytes d h)
        | inr w ↦ rw w h
      ]

      module _ (file : SharedFile) (queue_download : DownloadQueueItem) where
        abbrev is_queue : Bool
        is_queue = is_queue_file_downloading cipher host format file queue_download destination_path

        complete-Leads :
            Leads Q Q (complete cipher host format file queue_download destination_path)
        unfolding complete
        complete-Leads d h =
            step (set_active_download_finished host d) _ (set_active_download_finished-Leads d h)
              λ _ d h. app_update_completed-Leads _ _ _ d h

        disagree-Leads :
            (a b : Bool)
            → Leads Q Q (disagree cipher host format file queue_download destination_path a b)
        unfolding disagree
        disagree-Leads a b d h =
            let first : Download (Unit {0}) =
              if is_queue then set_active_download_finished host else pure tt in
            step (first d) _
              (if-Leads Q is_queue _ _ set_active_download_finished-Leads (λ d h. h) d h)
              λ _ d h.
                step (app_update_invalid_file _ _ d) _ (app_update_invalid_file-Leads _ _ d h)
                  λ _ d h. h

        receive_file-Leads :
            (fuel m current : ℕ)
            → Leads Q Q (
                receive_file cipher host format file queue_download destination_path fuel m current)
        unfolding receive_file
        receive_file-Leads zero m current = λ d h. h
        receive_file-Leads (suc fuel) m current = λ d h.
            step (get_payload cipher d) _ h λ payload d h.
              step (append_file cipher host format destination_path payload _) _
                (append_file-Leads payload _ (quiet refl refl h))
                λ _ d h.
                  let show : Download (Unit {0}) =
                    if host.elapsed d.active_downloaded_current_bytes
                    then app_update_in_progress host
                    else pure tt in
                  step (show d) _
                    (if-Leads Q (host.elapsed d.active_downloaded_current_bytes) _ _
                      app_update_in_progress-Leads (λ d h. h) d h)
                    λ _.
                      let now = current + length payload in
                      let remote = m == msg_file_finished in
                      let local =
                        now == (if is_queue then queue_download.file_size else file_size file) in
                      if-Leads Q (remote && local) _ _
                        (if-Leads Q is_queue _ _ complete-Leads (λ d h. h))
                        (if-Leads Q (remote || local) _ _ (disagree-Leads local remote) (λ d h.
                          step (Transfer.read cipher d) _ (read-Leads d h) λ _ d h.
                            step (get_message d) _ h λ next.
                              if-Leads Q
                                (not (next == msg_file_chunk) && not (next == msg_file_finished)) _
                                _ (λ d h. h)
                                (λ d h.
                                  step (read_receiver host d) _ (read_receiver-Leads d h) λ _ d.
                                    if-Leads Q d.stop_downloading _ _ (λ d h. h)
                                      (receive_file-Leads fuel next now) d)))

        make_dir-Leads :
            (dir : Text) → Leads Q Q (if host.creatable dir then pure tt else raise cannot_create)
        make_dir-Leads dir = if-Leads Q (host.creatable dir) _ _ (λ d h. h) (λ d h. h)

        request_file-Leads :
            (dir : Text) (present : List ℕ)
            → Leads Q Q
                (request_file cipher host format file queue_download destination_path dir present)
        unfolding request_file
        request_file-Leads dir present d h =
            step (Transfer.write cipher _ _ d) _ (write-Leads _ _ d h) λ _ d h.
              step (Transfer.read cipher d) _ (read-Leads d h) λ _ d h.
                step (get_message d) _ h λ m.
                  if-Leads Q (m == msg_file_invalid_file) _ _
                    (λ d h.
                      step (set_everything_file cipher host format true d) _
                        (set_everything_file-Leads true d h) λ _ d h. h)
                    (if-Leads Q (not (m == msg_file_chunk) && not (m == msg_file_finished)) _ _
                      (λ d h. h)
                      (λ d h.
                        let dirs : Download (Unit {0}) =
                          if host.creatable dir then pure tt else raise cannot_create in
                        step (dirs d) _ (make_dir-Leads dir d h) λ _ d h.
                          step (write_file host destination_path present d) _
                            (write_file-Leads present d h)
                            λ _ d h. receive_file-Leads _ m (length present) d h))

        create_empty-Leads :
            (dir : Text) (on_disk : Option (List ℕ))
            → Leads Q Q
                (create_empty cipher host format file queue_download destination_path dir on_disk)
        unfolding create_empty
        create_empty-Leads dir (some content) = λ d h. h
        create_empty-Leads dir none =
            if-Leads Q (file_size file == 0) _ _
              (λ d h.
                let dirs : Download (Unit {0}) =
                  if host.creatable dir then pure tt else raise cannot_create in
                step (dirs d) _ (make_dir-Leads dir d h) λ _ d h. write_file-Leads [] d h)
              (λ d h. h)

        refuse-Leads :
            (a b : Text)
            → Leads Q Q (set_active_download_finished host >> app_update_invalid_file a b)
        refuse-Leads a b d h =
            step (set_active_download_finished host d) _ (set_active_download_finished-Leads d h)
              λ _. app_update_invalid_file-Leads a b

        download_queued-Leads :
            (dir : Text) (on_disk : Option (List ℕ)) (present : List ℕ)
            → Leads Q Q (
                download_queued cipher host format file queue_download destination_path dir on_disk
                  present)
        unfolding download_queued
        download_queued-Leads dir on_disk present =
            if-Leads Q (not (queue_download.file_size == file_size file)) _ _ (refuse-Leads _ _) (
              if-Leads Q (ltb (length present) queue_download.file_size) _ _
                (request_file-Leads dir present)
                (if-Leads Q (length present == queue_download.file_size) _ _
                  (λ d h.
                    step
                      (create_empty cipher host format file queue_download destination_path dir
                        on_disk d)
                      _ (create_empty-Leads dir on_disk d h) λ _. complete-Leads)
                  (refuse-Leads _ _)))

        download_subfile-Leads :
            (dir : Text) (on_disk : Option (List ℕ)) (present : List ℕ)
            → Leads Q Q (
                download_subfile cipher host format file queue_download destination_path dir on_disk
                  present)
        unfolding download_subfile
        download_subfile-Leads dir on_disk present d =
            if-Leads Q (ltb queue_download.file_size d.active_downloaded_current_bytes) _ _
              (λ d h.
                step (set_active_download_finished host d) _
                  (set_active_download_finished-Leads d h)
                  λ _ d h.
                    step (app_update_invalid_file _ _ d) _ (app_update_invalid_file-Leads _ _ d h)
                      λ _ d h. h)
              (if-Leads Q (ltb (length present) (file_size file)) _ _
                (request_file-Leads dir present)
                (if-Leads Q (length present == file_size file) _ _
                  (λ d h.
                    step
                      (create_empty cipher host format file queue_download destination_path dir
                        on_disk d)
                      _ (create_empty-Leads dir on_disk d h) λ _ d h. quiet refl refl h)
                  (app_update_invalid_file-Leads _ _)))
              d

      pub download_file-Leads :
          (file : SharedFile) (dir : Text)
          → Leads Q Q (download_file cipher host format file dir destination_path)
      unfolding download_file
      download_file-Leads file dir d h =
          let on_disk = get d.disk destination_path in
          step (lift (unwrap_active cipher host format d.active_download_path) _) _
            (quiet refl refl h)
            λ item.
              if-Leads Q (is_queue file item) _ _
                (download_queued-Leads file item dir on_disk (bytes_of cipher host format on_disk))
                (download_subfile-Leads file item dir on_disk (bytes_of cipher host format on_disk))
