-- ===== src/FileList/Tests.antt =====
-- The theorems about the file list, at a small list.
use transmitic_core.Common.{
  ℕ, ◌+◌, ◌*◌, ◌≤◌, ◌≡◌, refl, false, List, [], ◌∷◌, ◌++◌, length, arith, ok,
}
use transmitic_core.Stream.Consts.{nonce_max}
use transmitic_core.Stream.Samples.{toy, toy-IsSealing, sender, sender-IsWritable, new-IsReadable}
use transmitic_core.Stream.Sessions.{send_all}
use transmitic_core.Stream.{EncryptedStream, new}
use transmitic_core.Uploader.{SingleUploader, success}
use transmitic_core.Uploader.Serving.{send_list, remember_list}
use transmitic_core.Downloader.{SingleDownloader}
use transmitic_core.Downloader.Samples.{machine, format, unasked}
use transmitic_core.Downloader.Transfer.{receive_list, rounds}
use transmitic_core.AppAggregator.{Text}
use transmitic_core.FileList.{pieces}
use transmitic_core.FileList.Arrives.{IsAdded, send_list_total, receive_list-send_list}

abbrev json : List ℕ
json = b'{' ∷ b'}' ∷ []

abbrev uploader : SingleUploader
uploader = record {
  nickname = b'a' ∷ [];
  should_shutdown = false;
  active_msg = 0;
  polls = [];
  encrypted_stream = sender;
  reverse_file_list = [];
  app_messages = [];
}

nonces_left : sender.nonce + 2 * (length json + 1) ≤ nonce_max
unfolding new
nonces_left = omega arith

send_list_total_example :
    (s' : EncryptedStream) × (names : List Text) × (send_all toy sender (pieces 3 json) ≡ ok s')
    × (send_list toy 3 json 0 2 uploader
        ≡ (record uploader { encrypted_stream = s'; reverse_file_list = names }, ok success))
    × IsAdded uploader.nickname uploader.reverse_file_list names
send_list_total_example =
    send_list_total toy toy-IsSealing uploader json refl refl sender-IsWritable nonces_left

-- The stream after the list was sent, and what was written.
abbrev sent : EncryptedStream
sent = (send_list_total toy toy-IsSealing uploader json refl refl sender-IsWritable nonces_left).0

abbrev after : SingleUploader
after = record uploader {
  encrypted_stream = sent;
  reverse_file_list =
      (send_list_total toy toy-IsSealing uploader json refl refl sender-IsWritable nonces_left).1;
}

abbrev downloader : SingleDownloader
downloader = record unasked {
  encrypted_stream =
      new (record { inbound = sent.stream.outbound ++ (9 ∷ []); outbound = []; broken = false });
}

uploader_wrote : sent.stream.outbound ≡ sender.stream.outbound ++ sent.stream.outbound
unfolding new
uploader_wrote = refl

same_nonce : downloader.encrypted_stream.nonce ≡ sender.nonce
unfolding new
same_nonce = refl

in_front : downloader.encrypted_stream.stream.inbound ≡ sent.stream.outbound ++ (9 ∷ [])
unfolding new
in_front = refl

known_stream : (remember_list (record uploader { encrypted_stream = sent })).encrypted_stream ≡ sent
unfolding transmitic_core.Uploader.Serving.contains_nickname
known_stream = refl

receive_list-send_list_example :
    (r' : EncryptedStream) × (receive_list toy machine format (rounds downloader) [] downloader
      ≡ (record downloader { encrypted_stream = r' }, ok json))
    × (r'.stream.inbound ≡ 9 ∷ [])
unfolding transmitic_core.Uploader.Serving.contains_nickname
receive_list-send_list_example =
    receive_list-send_list toy toy-IsSealing uploader json machine format after downloader
      sent.stream.outbound (9 ∷ []) refl refl sender-IsWritable nonces_left (omega arith)
      (new-IsReadable _) same_nonce
      ((send_list_total toy toy-IsSealing uploader json refl refl sender-IsWritable nonces_left).3)
      uploader_wrote in_front
