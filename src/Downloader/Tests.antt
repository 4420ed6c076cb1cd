-- ===== src/Downloader/Tests.antt =====
-- The theorems about src/outgoing_downloader.rs, at a small downloader.
use transmitic_core.Common.{
  ℕ, zero, suc, ◌≡◌, ◌≢◌, refl, sym, subst, ap, ◌∙◌, true, false, none, some, List, [], ◌∷◌, ◌++◌,
  All, ok, get, append_assoc, arith, text_eq_iff,
}
use transmitic_core.Common.Actions.{TryRecv, value, empty}
use transmitic_core.Stream.Sealing.{Cipher}
use transmitic_core.SharedFile.{SharedFile, shared_file, nil, cons}
use transmitic_core.AppAggregator.{Text}
use transmitic_core.Downloader.{
  SingleDownloader, DownloadQueueItem, MessageSingleDownloader, new_download, cancel_download,
  resume_downloads, Host,
}
use transmitic_core.Downloader.Samples.{machine, queue_file, format, unasked}
use transmitic_core.Downloader.QueueFile.{
  queue_text, queue_line, without_return, initialize_download_queue,
}
use transmitic_core.Downloader.QueueFile.RoundTrip.{IsQueued}
use transmitic_core.Downloader.Receiver.{read_receiver}
use transmitic_core.Downloader.Receiver.Saved.{initialize-read_receiver}
use transmitic_core.Downloader.Receiver.Cancels.{IsCancelled, read_receiver-IsCancelled}
use transmitic_core.Downloader.Names.{get_sanitized_disk_file_name}
use transmitic_core.Downloader.Names.Safe.{IsName, get_sanitized_disk_file_name-IsName}
use transmitic_core.Downloader.Transfer.{download_shared_file}
use transmitic_core.Downloader.Transfer.Inside.{IsBelow, here, within, download_shared_file-outside}

abbrev no_cipher : Cipher
no_cipher = record { encrypt = λ nonce text. none; decrypt = λ nonce text. none; hash = λ text. 0 }

abbrev item : DownloadQueueItem
item = record { path = b'/' ∷ b'a' ∷ b':' ∷ b'b' ∷ []; file_size = 12 }

abbrev other_item : DownloadQueueItem
other_item = record { path = b'/' ∷ b'c' ∷ []; file_size = 0 }

abbrev polls : List (TryRecv MessageSingleDownloader)
polls =
    value resume_downloads
    ∷ value (new_download item)
    ∷ value (cancel_download (b'/' ∷ b'a' ∷ b':' ∷ b'b' ∷ []))
    ∷ value (new_download other_item)
    ∷ empty
    ∷ []

abbrev idle : SingleDownloader
idle = record unasked { polls = polls; rev_polls = empty ∷ [] }

queue_after :
    ((read_receiver machine idle).0.download_queue ≡ other_item ∷ [])
    × ((read_receiver machine idle).1 ≡ ok tt)
unfolding read_receiver transmitic_core.Downloader.Receiver.poll_loop
    transmitic_core.Downloader.Receiver.poll_reverse transmitic_core.Downloader.Receiver.on_message
    transmitic_core.Downloader.QueueFile.write_queue
    transmitic_core.Downloader.QueueFile.write_queue_file transmitic_core.Downloader.write_file
    transmitic_core.Downloader.retain_other transmitic_core.Common.text_eq get
    transmitic_core.Common.insert transmitic_core.Downloader.app_update_in_progress
queue_after = (refl, refl)

other_item-IsQueued : IsQueued machine other_item
unfolding without_return transmitic_core.Common.Decimals.u64_to_string
    transmitic_core.Common.Decimals.digits
other_item-IsQueued = record { fits = omega arith; one_line = (refl, (refl, tt)); trimmed = refl }

initialize-read_receiver_example :
    initialize_download_queue machine (record idle { disk = (read_receiver machine idle).0.disk })
    ≡ (
      record idle {
        disk = (read_receiver machine idle).0.disk;
        download_queue = (read_receiver machine idle).0.download_queue;
      },
      ok tt,
    )
unfolding queue_text get
initialize-read_receiver_example =
    initialize-read_receiver machine queue_file refl idle
      (record idle { disk = (read_receiver machine idle).0.disk }) (refl, refl)
      (subst (All (IsQueued machine)) (sym queue_after.0) (other_item-IsQueued, tt)) refl refl refl

read_receiver-IsCancelled_example :
    IsCancelled (b'/' ∷ b'a' ∷ b':' ∷ b'b' ∷ []) (read_receiver machine idle).0
read_receiver-IsCancelled_example =
    read_receiver-IsCancelled machine (b'/' ∷ b'a' ∷ b':' ∷ b'b' ∷ []) idle
      (resume_downloads ∷ new_download item ∷ []) (value (new_download other_item) ∷ empty ∷ [])
      refl (λ e. cc, (tt, tt)) queue_after.1

abbrev shared : SharedFile
shared = shared_file (b'/' ∷ b's' ∷ b'/' ∷ b'f' ∷ []) false nil 0 []

shared_name : get_sanitized_disk_file_name shared ≡ ok (b'f' ∷ [])
unfolding get_sanitized_disk_file_name transmitic_core.Common.text_eq
    transmitic_core.Paths.Parts.replace transmitic_core.Downloader.Names.replace_double
    transmitic_core.Paths.Parts.path_iter
shared_name = refl

get_sanitized_disk_file_name-IsName_example : IsName (b'f' ∷ [])
get_sanitized_disk_file_name-IsName_example =
    get_sanitized_disk_file_name-IsName shared (b'f' ∷ []) shared_name

IsBelow-prefix : {dir path : Text} → IsBelow dir path → (rest : Text) × (path ≡ dir ++ rest)
IsBelow-prefix (here {dir} {n} name) = (n, refl)
IsBelow-prefix (within {dir} {n} name below) =
    let (rest, e) = IsBelow-prefix below in
    ((n ++ (b'/' ∷ [])) ++ rest, e ∙ append_assoc dir (n ++ (b'/' ∷ [])) rest)

x_outside : ¬ IsBelow (b'd' ∷ b'/' ∷ []) (b'x' ∷ [])
x_outside below = let (rest, e) = IsBelow-prefix below in cc

-- A directory with a file, which is empty and is created without asking.
abbrev shared_directory : SharedFile
shared_directory = shared_file (b'/' ∷ b's' ∷ []) true (cons shared nil) 0 []

abbrev active : SingleDownloader
active = record idle {
  active_download_path = some (record { path = b'/' ∷ b's' ∷ []; file_size = 0 });
}

queue_file_other : queue_file ≢ b'x' ∷ []
unfolding transmitic_core.Common.text_eq
queue_file_other e = let same = (text_eq_iff queue_file (b'x' ∷ [])).1 e in cc

download_shared_file-outside_example :
    get
      (download_shared_file no_cipher machine format shared_directory
        (b'd' ∷ b'/' ∷ [])
        active).0.disk
      (b'x' ∷ [])
    ≡ get active.disk (b'x' ∷ [])
download_shared_file-outside_example =
    download_shared_file-outside no_cipher machine format shared_directory (b'd' ∷ b'/' ∷ [])
      (b'x' ∷ []) active queue_file_other x_outside
