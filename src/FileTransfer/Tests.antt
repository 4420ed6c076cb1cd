-- ===== src/FileTransfer/Tests.antt =====
-- The theorems about a file's way, at a file of four bytes of which one has arrived.
use transmitic_core.Common.{
  ℕ, ◌+◌, ◌≡◌, refl, ap, ◌∙◌, true, false, none, some, List, [], ◌∷◌, ◌++◌, length, length-append,
  length-to_be_bytes, length-zeros, zeros, to_be_bytes, arith, ok, ltb, if◌then◌else◌, text_eq,
}
use transmitic_core.Stream.Consts.{total_buffer_size, msg_file_selection_continue}
use transmitic_core.Stream.Frames.{full, header, body}
use transmitic_core.Stream.Sending.{IsWritable, IsSent, write-Frame}
use transmitic_core.Stream.Receiving.{IsReadable}
use transmitic_core.Stream.Samples.{toy, toy-IsSealing, sender, sender-IsWritable, new-IsReadable}
use transmitic_core.Stream.Sessions.{send_all}
use transmitic_core.Stream.{EncryptedStream, new, write}
use transmitic_core.SharedFile.{SharedFile, shared_file, nil}
use transmitic_core.AppAggregator.{Text}
use transmitic_core.Uploader.{SingleUploader}
use transmitic_core.Uploader.Serving.{Os, send_file}
use transmitic_core.Downloader.{SingleDownloader, DownloadQueueItem}
use transmitic_core.Downloader.Samples.{machine, format, unasked}
use transmitic_core.Downloader.Transfer.{request_file}
use transmitic_core.FileTransfer.{IsReading, chunks}
use transmitic_core.FileTransfer.Written.{IsWritten}
use transmitic_core.FileTransfer.Arrives.{send_file_total, request_file-send_file, IsAsking}

-- Two bytes at a time.
abbrev two : ℕ → List ℕ → ℕ
two at rest = if ltb 2 (length rest) then 2 else length rest

abbrev disk_of_two : Os
disk_of_two = record {
  open_file = λ path. none;
  read_count = λ at rest. some (two at rest);
  elapsed = λ at. false;
  percent = λ part whole. 0;
  is_utf8 = λ bytes. true;
  to_string = λ n. [];
}

two-IsReading : IsReading disk_of_two two
two-IsReading = record {
  succeeds = λ at rest. refl;
  fits = λ at rest. ground arith;
  there = λ at rest. ground arith;
  moves = λ at rest h. ground arith;
}

-- The uploader has read the request, which took two nonces.
abbrev uploader : SingleUploader
uploader = record {
  nickname = b'a' ∷ [];
  should_shutdown = false;
  active_msg = 8;
  polls = [];
  encrypted_stream = record sender { nonce = 2 };
  reverse_file_list = [];
  app_messages = [];
}

abbrev path : Text
path = b'/' ∷ b'f' ∷ []

abbrev rest : List ℕ
rest = 2 ∷ 3 ∷ 4 ∷ []

uploader-IsWritable : IsWritable uploader.encrypted_stream
unfolding new
uploader-IsWritable = sender-IsWritable

send_file_total_example :
    (s' : EncryptedStream) × (u' : SingleUploader) × (send_all toy uploader.encrypted_stream
        (chunks two 6 1 rest)
      ≡ ok s')
    × (send_file toy disk_of_two uploader.nickname path 4 6 rest 1 uploader ≡ (u', ok true))
    × (u'.encrypted_stream ≡ s')
send_file_total_example =
    send_file_total toy toy-IsSealing disk_of_two two two-IsReading uploader.nickname path 6 1 rest
      uploader (omega arith) (omega arith) refl refl uploader-IsWritable (omega arith)

abbrev sent_file :
    (s' : EncryptedStream) × (u' : SingleUploader) × (send_all toy uploader.encrypted_stream
        (chunks two 6 1 rest)
      ≡ ok s')
    × (send_file toy disk_of_two uploader.nickname path 4 6 rest 1 uploader ≡ (u', ok true))
    × (u'.encrypted_stream ≡ s')
sent_file =
    send_file_total toy toy-IsSealing disk_of_two two two-IsReading uploader.nickname path 6 1 rest
      uploader (omega arith) (omega arith) refl refl uploader-IsWritable (omega arith)

-- What the uploader wrote.
abbrev wire : List ℕ
wire = (sent_file.1).encrypted_stream.stream.outbound

abbrev file : SharedFile
file = shared_file path false nil 4 []

abbrev item : DownloadQueueItem
item = record { path = path; file_size = 4 }

abbrev asked : EncryptedStream
asked = new (record { inbound = wire ++ (9 ∷ []); outbound = []; broken = false })

abbrev downloader : SingleDownloader
downloader = record unasked {
  download_queue = item ∷ [];
  active_download_path = some item;
  encrypted_stream = asked;
}

abbrev request : List ℕ
request = to_be_bytes 8 1 ++ path

length-request : length request ≡ 10
length-request = omega (arith, length-append (to_be_bytes 8 1) path, length-to_be_bytes 8 1)

asked-IsWritable : IsWritable asked
unfolding new
asked-IsWritable = (length-zeros total_buffer_size, refl)

asked_nonce : asked.nonce ≡ 0
unfolding new
asked_nonce = refl

request-IsSent :
    (r0 : EncryptedStream) × (write toy asked msg_file_selection_continue request ≡ ok r0)
    × IsSent asked r0
        ((zeros 16 ++ header msg_file_selection_continue request)
          ++ (zeros 16 ++ body toy msg_file_selection_continue request))
        (asked.nonce + 1 + 1)
request-IsSent =
    write-Frame toy asked msg_file_selection_continue request asked-IsWritable
      (omega (arith, length-request)) (omega (arith, asked_nonce))
      (full (omega (arith, length-request)) refl refl)

abbrev behind : EncryptedStream
behind = request-IsSent.0

behind_nonce : behind.nonce ≡ uploader.encrypted_stream.nonce
behind_nonce = request-IsSent.2.nonce_moved ∙ ap (λ n. n + 1 + 1) asked_nonce

asked_inbound : asked.stream.inbound ≡ wire ++ (9 ∷ [])
unfolding new
asked_inbound = refl

asked-IsReadable : IsReadable asked
asked-IsReadable = new-IsReadable _

behind-IsReadable : IsReadable behind
behind-IsReadable =
    (request-IsSent.2.writable.0, ap length request-IsSent.2.crypto_buffer ∙ asked-IsReadable.1)

wrote_wire :
    (sent_file.1).encrypted_stream.stream.outbound
    ≡ uploader.encrypted_stream.stream.outbound ++ wire
unfolding new
wrote_wire = refl

downloader-IsAsking :
    IsAsking machine file item
      (b'd' ∷ b'/' ∷ b'f' ∷ [])
      (b'd' ∷ b'/' ∷ [])
      1
      rest
      (1 ∷ [])
      downloader
unfolding text_eq
downloader-IsAsking = record {
  queued = refl;
  size = refl;
  position = refl;
  no_message = refl;
  no_connection = refl;
  goes_on = refl;
  creatable = refl;
  destination_writable = refl;
  queue_writable = refl;
  apart = refl;
}

request_file-send_file_example :
    (d' : SingleDownloader) × (r' : EncryptedStream) × (request_file toy machine format file item
        (b'd' ∷ b'/' ∷ b'f' ∷ [])
        (b'd' ∷ b'/' ∷ [])
        (1 ∷ [])
        downloader
      ≡ (d', ok tt))
    × IsWritten path (b'd' ∷ b'/' ∷ b'f' ∷ []) (1 ∷ 2 ∷ 3 ∷ 4 ∷ []) downloader d' r'
    × (r'.stream.inbound ≡ 9 ∷ [])
request_file-send_file_example =
    request_file-send_file toy toy-IsSealing disk_of_two two two-IsReading uploader.nickname path 6
      1 rest uploader (omega arith) (omega arith) refl refl uploader-IsWritable (omega arith)
      machine format file item (b'd' ∷ b'/' ∷ b'f' ∷ []) (b'd' ∷ b'/' ∷ []) (1 ∷ []) downloader
      behind (sent_file.1) wire (9 ∷ []) downloader-IsAsking (request-IsSent.1) behind-IsReadable
      behind_nonce (sent_file.3) wrote_wire asked_inbound (request-IsSent.2.inbound ∙ asked_inbound)
