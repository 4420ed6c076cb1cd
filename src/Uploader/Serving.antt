-- ===== src/Uploader/Serving.antt =====
-- `run_loop` of src/incoming_uploader.rs: one request of the peer, served. The file system, the
-- clock, the number formats and `f64` are the parameter `Os`.
use transmitic_core.Common.{
  ℕ, zero, suc, ◌+◌, ◌-◌, Bool, true, false, ◌||◌, Option, none, some, List, [], ◌∷◌, ◌++◌, text_eq,
  if◌then◌else◌, ltb, leb, ◌==◌, length, take, drop, slice, from_be_bytes,
}
use transmitic_core.Common.Actions.{pure, raise, gets, modify, lift, some_or, ◌>>=◌, ◌>>◌}
use transmitic_core.Stream.Sealing.{Cipher}
use transmitic_core.Stream.Consts.{
  max_data_size, msg_file_list, msg_file_list_piece, msg_file_list_final, msg_file_chunk,
  msg_file_finished, msg_file_invalid_file, msg_cannot_select_directory,
  msg_file_selection_continue, msg_reverse, msg_reverse_no_list,
}
use transmitic_core.SharedFile.{SharedFile, get_file_by_path, is_directory, file_size}
use transmitic_core.AppAggregator.{Text, log_debug, log_info, log_warning, upload_state_change}
use transmitic_core.Uploader.{
  SingleUploader, Upload, UploadError, RunLoopResult, success, reverse_connection, send, read,
  write, get_payload, get_message, read_receiver,
}
use transmitic_core.Uploader.Texts.{
  quote, requested_list, chose_file, at_seek, chose_invalid, chose_directory, sending, file_word,
  transfer_to, completed_word,
}

-- `open` gives the bytes of a file. `read` says how many bytes `f.read` returns at a position, with
-- what is left of the file. `elapsed` is the test of the clock at a position. `percent` is the `f64`
-- quotient of two sizes times 100 as `u64`.
pub record Os : Type 0 where
  pub open_file : Text → Option (List ℕ)
  pub read_count : ℕ → List ℕ → Option ℕ
  pub elapsed : ℕ → Bool
  pub percent : ℕ → ℕ → ℕ
  pub is_utf8 : List ℕ → Bool
  pub to_string : ℕ → Text

unfoldable pub contains_nickname : List Text → Text → Bool
contains_nickname [] nickname = false
contains_nickname (x ∷ xs) nickname =
    let rest = contains_nickname xs nickname in if text_eq x nickname then true else rest

-- The end of a file list: the peer has the latest one.
abbrev pub remember_list : SingleUploader → SingleUploader
remember_list u =
    if contains_nickname u.reverse_file_list u.nickname
    then u
    else record u { reverse_file_list = u.reverse_file_list ++ (u.nickname ∷ []) }

module _ (cipher : Cipher) where
  -- The loop that sends the file list, on fuel.
  unfoldable pub send_list : ℕ → List ℕ → ℕ → ℕ → Upload RunLoopResult
  send_list zero json sent_bytes remaining_bytes = raise UploadError.out_of_fuel
  send_list (suc fuel) json sent_bytes remaining_bytes =
      let again =
        send_list fuel json (sent_bytes + max_data_size) (remaining_bytes - max_data_size) in
      let is_final = leb remaining_bytes max_data_size in
      let msg = if is_final then msg_file_list_final else msg_file_list_piece in
      do
        payload ← lift (
            slice json sent_bytes
              (if is_final then remaining_bytes + sent_bytes else max_data_size + sent_bytes))
        write cipher msg payload
        read_receiver
        should_shutdown ← gets (λ u. u.should_shutdown)
        if should_shutdown
            then pure success
            else (if is_final then (modify remember_list >> pure success) else again)

module _ (os : Os) (nickname choice : Text) where
  open os use {percent, elapsed}

  -- `UploadStateChange`
  abbrev pub state_change : ℕ → Upload (Unit {0})
  state_change n = send (
      upload_state_change
        (record { nickname = nickname; path = choice; percent = n; is_online = true }))

  -- The update that the clock throttles.
  unfoldable pub throttled_update : ℕ → ℕ → Upload (Unit {0})
  throttled_update current_sent_bytes size =
      let download_percent = percent current_sent_bytes size in
      if elapsed current_sent_bytes
      then state_change (if ltb download_percent 100 then download_percent else 99)
      else pure tt

-- A loop over the rest of the file, on fuel. The result says whether the file was finished, or
-- the thread is to shut down.
module _ (cipher : Cipher) (os : Os) (nickname choice : Text) (size : ℕ) where
  open os use {read_count}

  unfoldable pub send_file : ℕ → List ℕ → ℕ → Upload Bool
  send_file zero rest current_sent_bytes = raise UploadError.out_of_fuel
  send_file (suc fuel) rest current_sent_bytes = do
    read_response ← some_or (read_count current_sent_bytes rest) UploadError.file_not_read
    let again = send_file fuel (drop read_response rest) (current_sent_bytes + read_response)
    let write_message =
        if leb size (current_sent_bytes + read_response) || read_response == 0
        then msg_file_finished
        else msg_file_chunk
    write cipher write_message (take read_response rest)
    if write_message == msg_file_finished then pure true else (do
      throttled_update os nickname choice (current_sent_bytes + read_response) size
      read_receiver
      should_shutdown ← gets (λ u. u.should_shutdown)
      if should_shutdown then pure false else again)

module _ (cipher : Cipher) (os : Os) (everything_file : SharedFile) (json : List ℕ) where
  open os use {open_file, is_utf8, to_string}

  -- The request for a file: 8 bytes of the seek point, and the path.
  unfoldable pub serve_selection : Text → Upload RunLoopResult
  serve_selection nickname = do
    payload_bytes ← get_payload cipher
    seek_bytes ← lift (slice payload_bytes 0 8)
    let file_seek_point = from_be_bytes seek_bytes
    client_file_choice ←
        some_or (if is_utf8 (drop 8 payload_bytes) then some (drop 8 payload_bytes) else none)
          UploadError.not_utf8
    send (
        log_debug (
          quote
          ++ nickname
          ++ chose_file
          ++ client_file_choice
          ++ at_seek
          ++ to_string file_seek_point
          ++ quote))
    elim (get_file_by_path client_file_choice everything_file) as (λ x. Upload RunLoopResult) [
      | none ↦ (do
        send (log_warning (quote ++ nickname ++ chose_invalid ++ client_file_choice ++ quote))
        write cipher msg_file_invalid_file []
        pure success)
      | some client_shared_file ↦
          if is_directory client_shared_file
          then (do
            send (log_warning (quote ++ nickname ++ chose_directory ++ client_file_choice ++ quote))
            write cipher msg_cannot_select_directory []
            pure success)
          else (do
            content ← some_or (open_file client_file_choice) UploadError.file_not_opened
            send (log_info (sending ++ nickname ++ file_word ++ client_file_choice ++ quote))
            state_change os nickname client_file_choice 0
            finished ←
                send_file cipher os nickname client_file_choice (file_size client_shared_file)
                  (length content + 2) (drop file_seek_point content) file_seek_point
            if finished
                then (do
                  state_change os nickname client_file_choice 100
                  send (
                      log_info
                        (transfer_to ++ nickname ++ completed_word ++ client_file_choice ++ quote))
                  pure success)
                else pure success)
    ]

  unfoldable pub run_loop : Upload RunLoopResult
  run_loop = do
    read cipher
    read_receiver
    should_shutdown ← gets (λ u. u.should_shutdown)
    nickname ← gets (λ u. u.nickname)
    if should_shutdown then pure success else (do
      client_message ← get_message
      modify (λ u. record u { active_msg = client_message })
      if client_message == msg_file_list
          then (do
            send (log_debug (quote ++ nickname ++ requested_list))
            send_list cipher (length json + 1) json 0 (length json))
          else if client_message == msg_file_selection_continue
          then serve_selection nickname
          else if client_message == msg_reverse || client_message == msg_reverse_no_list
          then (do
            modify (λ u. record u {
              encrypted_stream = record (u.encrypted_stream) { reverse_message = client_message };
            })
            pure reverse_connection)
          else raise (UploadError.invalid_selection client_message))
