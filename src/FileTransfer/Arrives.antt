-- ===== src/FileTransfer/Arrives.antt =====
-- The whole way of a file, from the loop of src/incoming_uploader.rs to `download_shared_file` of
-- src/outgoing_downloader.rs.
use transmitic_core.Common.{
  ℕ, suc, ◌+◌, ◌*◌, ◌<◌, ◌≤◌, ◌≡◌, refl, ap, ap₂, sym, ◌∙◌, true, false, not, ◌&&◌, List, [], ◌++◌,
  length, length-append, ◌==◌, arith, ok, text_eq, insert, get-insert_same, to_be_bytes,
}
use transmitic_core.Stream.Consts.{
  nonce_max, msg_file_chunk, msg_file_finished, msg_file_invalid_file, msg_file_selection_continue,
}
use transmitic_core.Stream.Sealing.{Cipher, IsSealing}
use transmitic_core.Stream.Sending.{IsWritable}
use transmitic_core.Stream.Receiving.{IsReadable}
use transmitic_core.Stream.Sessions.{send_all, send_all_total, receive_all-send_all, length-wire}
use transmitic_core.Stream.Rounds.{receive_all-Receives}
use transmitic_core.Stream
use transmitic_core.Stream.{EncryptedStream}
use transmitic_core.SharedFile
use transmitic_core.SharedFile.{SharedFile, SizeFormat}
use transmitic_core.AppAggregator.{Text}
use transmitic_core.Uploader.{SingleUploader}
use transmitic_core.Uploader.Serving.{Os, send_file}
use transmitic_core.Downloader.{SingleDownloader, DownloadQueueItem, Host, write_file}
use transmitic_core.Downloader.Transfer.{request_file, receive_file}
use transmitic_core.FileList.Sent.{undisturbed}
use transmitic_core.FileTransfer.{IsReading, chunks, chunks-IsMessage, length-chunks}
use transmitic_core.FileTransfer.Sent.{send_file-send_all}
use transmitic_core.FileTransfer.Written.{
  waiting, Receives-Pending, chunks_known, chunks_filled, receive_file-chunks, IsWritten,
}

module _ (cipher : Cipher) (host : Host) (format : SizeFormat) (file : SharedFile)
    (item : DownloadQueueItem) (destination download_dir : Text) (present : List ℕ)
    (d : SingleDownloader) (r0 r1 : EncryptedStream) (msg : ℕ) where
  -- A file that the peer has begun to send.
  request_file-begun :
      host.creatable download_dir ≡ true
      → host.writable destination ≡ true
      → Stream.write cipher d.encrypted_stream msg_file_selection_continue
          (to_be_bytes 8 (length present) ++ SharedFile.path file)
        ≡ ok r0
      → Stream.read cipher r0 ≡ ok r1
      → Stream.get_message r1 ≡ ok msg
      → (msg == msg_file_invalid_file) ≡ false
      → (not (msg == msg_file_chunk) && not (msg == msg_file_finished)) ≡ false
      → request_file cipher host format file item destination download_dir present d
        ≡ receive_file cipher host format file item destination
            (suc (length d.encrypted_stream.stream.inbound))
            msg
            (length present)
            (record d { disk = insert d.disk destination present; encrypted_stream = r1 })
  unfolding request_file write_file
  request_file-begun creatable writable wrote read_ok msg_ok valid known =
      rw (wrote, read_ok, msg_ok, valid, known, creatable, writable) refl

known_valid :
    (msg : ℕ)
    → (not (msg == msg_file_chunk) && not (msg == msg_file_finished)) ≡ false
    → (msg == msg_file_invalid_file) ≡ false
known_valid msg h = ground arith

module _ (u : SingleUploader) where
  left_alone : u.polls ≡ [] → u.should_shutdown ≡ false → u ≡ undisturbed u u.encrypted_stream
  left_alone polls running = ap₂ (λ p b. record u { polls = p; should_shutdown = b }) polls running

unasked_for :
    (d : SingleDownloader) (r : EncryptedStream)
    → d.polls ≡ []
    → d.rev_polls ≡ []
    → d.stop_downloading ≡ false
    → record d { encrypted_stream = r } ≡ waiting d r
unasked_for d r polls rev_polls running i = record d {
  polls = polls i;
  rev_polls = rev_polls i;
  stop_downloading = running i;
  encrypted_stream = r;
}

-- What the downloader must find: the file is the one that the queue names, with the size that the
-- uploader has, nothing waits for the thread, the machine lets it write, and `present` is on the disk.
pub record IsAsking (host : Host) (file : SharedFile) (item : DownloadQueueItem)
    (destination download_dir : Text) (at : ℕ) (rest present : List ℕ) (d : SingleDownloader)
    : Type 0 where
  pub queued : text_eq (SharedFile.path file) item.path ≡ true
  pub size : item.file_size ≡ at + length rest
  pub position : at ≡ length present
  pub no_message : d.polls ≡ []
  pub no_connection : d.rev_polls ≡ []
  pub goes_on : d.stop_downloading ≡ false
  pub creatable : host.creatable download_dir ≡ true
  pub destination_writable : host.writable destination ≡ true
  pub queue_writable : host.writable d.path_queue_file ≡ true
  pub apart : text_eq d.path_queue_file destination ≡ false

-- The two ends: an uploader that has been asked for the rest of a file, and the downloader's stream.
module _ (cipher : Cipher) (law : IsSealing cipher) (os : Os) (count : ℕ → List ℕ → ℕ)
    (reading : IsReading os count) (nickname choice : Text) (fuel at : ℕ) (rest : List ℕ)
    (u : SingleUploader) (filled : 1 ≤ length rest) (enough : length rest < fuel)
    (polls : u.polls ≡ []) (running : u.should_shutdown ≡ false)
    (writable : IsWritable u.encrypted_stream)
    (nonces : u.encrypted_stream.nonce + 2 * fuel ≤ nonce_max) where
  file_nonces : u.encrypted_stream.nonce + 2 * length (chunks count fuel at rest) ≤ nonce_max
  file_nonces = omega (arith, length-chunks count fuel at rest)

  -- A file that nothing interrupts is sent to its end: where what is to be sent is not empty and ends
  -- at the size that the list says, the thread has no message and is not told to stop, its stream can
  -- be written and has nonces to spare, every read of the file returns something while there is
  -- something left, and the fuel is more than what is left, the loop ends with the file finished.
  pub send_file_total :
      (s' : EncryptedStream) × (u' : SingleUploader) × (send_all cipher u.encrypted_stream
          (chunks count fuel at rest)
        ≡ ok s')
      × (send_file cipher os nickname choice (at + length rest) fuel rest at u ≡ (u', ok true))
      × (u'.encrypted_stream ≡ s')
  send_file_total =
      let (s', sent, up, down) =
        send_all_total cipher law u.encrypted_stream (chunks count fuel at rest) writable
          (chunks-IsMessage reading fuel at rest) file_nonces in
      let (u', whole) =
        send_file-send_all cipher os nickname choice (at + length rest) count reading fuel at rest u
          u.encrypted_stream s' filled enough refl sent in
      (
        s',
        undisturbed u' s',
        sent,
        ap (send_file cipher os nickname choice (at + length rest) fuel rest at)
              (left_alone u polls running)
            ∙ whole,
        refl,
      )

  module _ (host : Host) (format : SizeFormat) (file : SharedFile) (item : DownloadQueueItem)
      (destination download_dir : Text) where
    -- A file arrives whole, also where a part of it had arrived before. The uploader has no
    -- message, is not told to stop, has a stream that can be written, nonces to spare and a file
    -- that can be read, and sends a rest that is not empty to its end; the file is the one that
    -- the downloader's queue names, of the uploader's size, its thread has no message and is not
    -- told to stop, it may write the file, which is not the queue file, and it finds, at the same
    -- key and nonce behind its request, the bytes that the uploader wrote at the front of its
    -- input. Then `request_file` succeeds, the file on the disk is what was there and then what
    -- the uploader had left, the queue moves on, nothing is active, the app is told last that the
    -- download is complete, and the input behind is left alone.
    pub request_file-send_file :
        (present : List ℕ) (d : SingleDownloader) (r0 : EncryptedStream) (u' : SingleUploader)
        (wire more : List ℕ)
        → IsAsking host file item destination download_dir at rest present d
        → Stream.write cipher d.encrypted_stream msg_file_selection_continue
            (to_be_bytes 8 (length present) ++ SharedFile.path file)
          ≡ ok r0
        → IsReadable r0
        → r0.nonce ≡ u.encrypted_stream.nonce
        → send_file cipher os nickname choice (at + length rest) fuel rest at u ≡ (u', ok true)
        → u'.encrypted_stream.stream.outbound ≡ u.encrypted_stream.stream.outbound ++ wire
        → d.encrypted_stream.stream.inbound ≡ wire ++ more
        → r0.stream.inbound ≡ wire ++ more
        → (d' : SingleDownloader) × (r' : EncryptedStream) × (request_file cipher host format file
              item destination download_dir present d
            ≡ (d', ok tt))
          × IsWritten item.path destination (present ++ rest) d d' r'
          × (r'.stream.inbound ≡ more)
    request_file-send_file present d r0 u' wire more asking wrote readable same sent_file out
          inbound inbound0 =
        let ms = chunks count fuel at rest in
        let s = u.encrypted_stream in
        let good = chunks-IsMessage reading fuel at rest in
        let (s', u1, sent, whole, at_end) = send_file_total in
        let u_eq : u1 ≡ u' = ap (λ r. r.0) (sym whole ∙ sent_file) in
        let out' : s'.stream.outbound ≡ s.stream.outbound ++ wire =
          ap (λ t. t.stream.outbound) (sym at_end ∙ ap (λ v. v.encrypted_stream) u_eq) ∙ out in
        let (r', got, left, nonce_eq) =
          receive_all-send_all cipher law s s' r0 ms wire more writable readable good file_nonces
            sent out' same inbound0 in
        let few = length-wire cipher law s s' ms wire writable good file_nonces sent out' in
        let input : length d.encrypted_stream.stream.inbound ≡ length (wire ++ more) =
          ap length inbound in
        let some_fuel : 1 ≤ fuel = omega arith in
        let (r1, msg, read_ok, msg_ok, begins) =
          Receives-Pending cipher r0 r' ms (chunks_filled count fuel at rest some_fuel)
            (receive_all-Receives cipher r0 r' ms got) in
        let known = chunks_known cipher count fuel at msg rest r1 r' some_fuel msg_ok begins in
        let begun = record d { disk = insert d.disk destination present } in
        let (d', written, w) =
          receive_file-chunks cipher host format file item destination asking.queued count fuel
            (suc (length d.encrypted_stream.stream.inbound)) at msg rest present begun r1 r'
            reading.moves
            (asking.queue_writable, asking.apart, get-insert_same d.disk destination present)
            asking.size filled enough (omega (arith, few, input, length-append wire more)) msg_ok
            begins in
        (
          d',
          r',
          request_file-begun cipher host format file item destination download_dir present d r0 r1
                msg asking.creatable asking.destination_writable wrote read_ok msg_ok
                (known_valid msg known) known
              ∙ ap₂
                  (receive_file cipher host format file item destination
                    (suc (length d.encrypted_stream.stream.inbound)) msg)
                  (sym asking.position)
                  (unasked_for begun r1 asking.no_message asking.no_connection asking.goes_on)
              ∙ written,
          record {
            written = w.written;
            moved_on = w.moved_on;
            inactive = w.inactive;
            connection = w.connection;
            before = w.before;
            reported = w.reported;
          },
          left,
        )
