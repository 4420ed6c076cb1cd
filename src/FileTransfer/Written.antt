-- ===== src/FileTransfer/Written.antt =====
-- The loop of src/outgoing_downloader.rs that writes a file, over the pieces that it receives.
use transmitic_core.Common.{
  ℕ, zero, suc, ◌+◌, ◌<◌, ◌≤◌, ◌≡◌, refl, ap, sym, ◌∙◌, true, false, not, ◌&&◌, Bool-cases,
  Option-cases, inl, inr, none, some, List, [], ◌∷◌, ◌++◌, length, length-drop, length-take, take,
  drop, ltb, ◌==◌, if◌then◌else◌, arith, Outcome, ok, text_eq, get, insert, remove, get-insert_same,
  get-insert_other, get-remove_other, is_empty, append_assoc, take-append-drop,
}
use transmitic_core.Stream.Consts.{msg_file_chunk, msg_file_finished}
use transmitic_core.Stream.Sealing.{Cipher}
use transmitic_core.Stream.Sessions.{Message}
use transmitic_core.FileTransfer.{chunks}
use transmitic_core.Stream.Rounds.{Receives, done, more}
use transmitic_core.Stream
use transmitic_core.Stream.{EncryptedStream, StreamError}
use transmitic_core.SharedFile.{SharedFile, SizeFormat}
use transmitic_core.SharedFile
use transmitic_core.AppAggregator.{Text, AppAggMessage, completed}
use transmitic_core.Uploader.{OwnedStream}
use transmitic_core.Downloader.{
  SingleDownloader, DownloadQueueItem, Host, Download, write_file, app_update_in_progress,
  app_update_completed, get_queue_without_active, paths,
}
use transmitic_core.Downloader.QueueFile.{
  queue_text, write_queue, write_queue_file, set_active_download_finished,
}
use transmitic_core.Downloader.Receiver.{read_receiver, poll_loop, poll_reverse}
use transmitic_core.Common.Actions.{pure}
use transmitic_core.Downloader.Texts.{delete_failed, stop_space}
use transmitic_core.Downloader.Transfer.{receive_file, append_file, complete}

-- Rounds whose first message has been read.
pub data Pending (cipher : Cipher) : EncryptedStream → List Message → EncryptedStream → Type 0 where
  pending :
      {r r' : EncryptedStream} {m : Message} {ms : List Message}
      → Stream.get_message r ≡ ok (m.0)
      → Stream.get_payload cipher r ≡ ok (m.1)
      → Receives cipher r ms r'
      → Pending cipher r (m ∷ ms) r'

pub Receives-Pending :
    (cipher : Cipher) (r r' : EncryptedStream) (ms : List Message)
    → 1 ≤ length ms
    → Receives cipher r ms r'
    → (r1 : EncryptedStream) × (next : ℕ) × (Stream.read cipher r ≡ ok r1)
      × (Stream.get_message r1 ≡ ok next)
      × Pending cipher r1 ms r'
Receives-Pending cipher r r' [] filled got = absurd (omega arith)
Receives-Pending cipher r r' (m ∷ ms) filled (more {r' = r1} read_ok msg_ok payload_ok later) =
    (r1, m.0, read_ok, msg_ok, pending msg_ok payload_ok later)

same_message : (a b : ℕ) → ◌≡◌ {A = Outcome StreamError ℕ} (ok a) (ok b) → a ≡ b
same_message a b e = cc

pub chunks_filled :
    (count : ℕ → List ℕ → ℕ) (n at : ℕ) (rest : List ℕ)
    → 1 ≤ n
    → 1 ≤ length (chunks count n at rest)
unfolding chunks
chunks_filled count zero at rest h = absurd (omega arith)
chunks_filled count (suc n) at rest h = elim (Bool-cases (ltb (count at rest) (length rest))) [
  | inl several ↦ rw several (omega arith)
  | inr last ↦ rw last (omega arith)
]

not_equal : (a b : ℕ) → a < b → (a == b) ≡ false
not_equal a b h = ground arith

few_left : (a b : ℕ) → suc a ≤ suc b → a ≤ b
few_left a b h = omega arith

is_ltb : (a b : ℕ) → ltb a b ≡ true → a < b
is_ltb a b h = ground arith

first_message :
    (cipher : Cipher) (r r' : EncryptedStream) (msg kind : ℕ) (payload : List ℕ) (ms : List Message)
    → Stream.get_message r ≡ ok msg
    → Pending cipher r ((kind, payload) ∷ ms) r'
    → msg ≡ kind
first_message cipher r r' msg kind payload ms msg_ok (pending msg_ok' payload_ok later) =
    same_message msg kind (sym msg_ok ∙ msg_ok')

-- No other message comes in a file's pieces.
pub chunks_known :
    (cipher : Cipher) (count : ℕ → List ℕ → ℕ) (n at msg : ℕ) (rest : List ℕ)
    (r r' : EncryptedStream)
    → 1 ≤ n
    → Stream.get_message r ≡ ok msg
    → Pending cipher r (chunks count n at rest) r'
    → (not (msg == msg_file_chunk) && not (msg == msg_file_finished)) ≡ false
unfolding chunks
chunks_known cipher count zero at msg rest r r' h msg_ok got = absurd (omega arith)
chunks_known cipher count (suc n) at msg rest r r' h msg_ok got =
    elim (Bool-cases (ltb (count at rest) (length rest))) [
      | inl several ↦
          rw (first_message cipher r r' msg _ _ _ msg_ok (rw (chunks, several) at got)) refl
      | inr last ↦ rw (first_message cipher r r' msg _ _ _ msg_ok (rw (chunks, last) at got)) refl
    ]

abbrev Messages : Type 0
Messages = List (AppAggMessage OwnedStream)

-- A downloader that no message waits for, with its connection.
abbrev pub waiting : SingleDownloader → EncryptedStream → SingleDownloader
waiting d r = record d {
  polls = [];
  rev_polls = [];
  stop_downloading = false;
  encrypted_stream = r;
}

abbrev pub tail : List DownloadQueueItem → List DownloadQueueItem
tail [] = []
tail (f ∷ fs) = fs

module _ (host : Host) (path : Text) where
  -- The queue file has changed at most, and a message may have been sent.
  record Saves (d : SingleDownloader) : Type 0 where
    disk : List (Text × List ℕ)
    messages : Messages
    saves : write_queue host d ≡ (record d { disk = disk; app_messages = messages }, ok tt)
    kept : get disk path ≡ get d.disk path

  module _ (d : SingleDownloader) (writable : host.writable d.path_queue_file ≡ true)
      (away : text_eq d.path_queue_file path ≡ false) where
    write_queue_file_lem :
        write_queue_file host d
        ≡ (record d { disk = insert d.disk d.path_queue_file (queue_text d.download_queue) }, ok tt)
    unfolding write_queue_file write_file
    write_queue_file_lem = rw writable refl

    write_queue-Saves : Saves d
    unfolding write_queue
    write_queue-Saves = elim (Bool-cases (is_empty d.download_queue)) [
      | inr filled ↦ record {
        disk = insert d.disk d.path_queue_file (queue_text d.download_queue);
        messages = d.app_messages;
        saves = rw filled write_queue_file_lem;
        kept = get-insert_other d.disk d.path_queue_file path _ away;
      }
      | inl bare ↦ elim (Option-cases (get d.disk d.path_queue_file)) [
        | inl missing ↦ record {
          disk = d.disk;
          messages = d.app_messages;
          saves = rw (bare, missing) refl;
          kept = refl;
        }
        | inr (content, there) ↦ elim (Option-cases (host.remove_error d.path_queue_file)) [
          | inl removed ↦ record {
            disk = remove d.disk d.path_queue_file;
            messages = d.app_messages;
            saves = rw (bare, there, removed) refl;
            kept = get-remove_other d.disk d.path_queue_file path away;
          }
          | inr (e, stays) ↦ record {
            disk = insert d.disk d.path_queue_file (queue_text d.download_queue);
            messages =
                d.app_messages
                ++ (AppAggMessage.log_error (delete_failed ++ d.path_queue_file ++ stop_space ++ e)
                    ∷ []);
            saves = rw (bare, there, stays, write_queue_file_lem) refl;
            kept = get-insert_other d.disk d.path_queue_file path _ away;
          }
        ]
      ]
    ]

-- The download of a path is over: the file holds the content, the queue has moved on, nothing is
-- active, and the last message to the app reports the download.
pub record IsWritten (path destination : Text) (content : List ℕ) (d d' : SingleDownloader)
    (r' : EncryptedStream) : Type 0 where
  pub written : get d'.disk destination ≡ some content
  pub moved_on : d'.download_queue ≡ tail d.download_queue
  pub inactive : d'.active_download_path ≡ none
  pub connection : d'.encrypted_stream ≡ r'
  pub before : List (AppAggMessage OwnedStream)
  pub reported :
      d'.app_messages
      ≡ before
        ++ (completed (record {
          nickname = d.shared_user.nickname;
          path = path;
          download_queue = paths (tail d.download_queue);
          path_local_disk = destination;
          size_string = d.active_download_total_size;
        })
            ∷ [])

module _ (cipher : Cipher) (host : Host) (format : SizeFormat) (file : SharedFile)
    (queue_download : DownloadQueueItem) (destination : Text)
    (queued : text_eq (SharedFile.path file) queue_download.path ≡ true) where
  complete-IsWritten :
      (d : SingleDownloader) (content : List ℕ)
      → host.writable d.path_queue_file ≡ true
      → text_eq d.path_queue_file destination ≡ false
      → get d.disk destination ≡ some content
      → (d' : SingleDownloader) × (complete cipher host format file queue_download destination d
          ≡ (d', ok tt))
        × IsWritten queue_download.path destination content d d' d.encrypted_stream
  unfolding complete set_active_download_finished app_update_completed get_queue_without_active
  complete-IsWritten d content writable away there =
      let front = record d { download_queue = tail d.download_queue } in
      let saved = write_queue-Saves host destination front writable away in
      let d2 = record front {
        disk = saved.disk;
        app_messages = saved.messages;
        active_download_path = none;
      } in
      (
        (app_update_completed queue_download.path destination d.active_download_total_size d2).0,
        rw (saved.saves) refl,
        record {
          written = saved.kept ∙ there;
          moved_on = refl;
          inactive = refl;
          connection = refl;
          before = saved.messages;
          reported = refl;
        },
      )

  append_file_lem :
      (d : SingleDownloader) (present payload : List ℕ)
      → get d.disk destination ≡ some present
      → append_file cipher host format destination payload d
        ≡ (record d { disk = insert d.disk destination (present ++ payload) }, ok tt)
  unfolding append_file
  append_file_lem d present payload there = rw (append_file, there) refl

  -- The throttled update.
  abbrev show : ℕ → Download (Unit {0})
  show bytes = if host.elapsed bytes then app_update_in_progress host else pure tt

  show_lem :
      (bytes : ℕ) (d : SingleDownloader)
      → (messages : Messages) × (show bytes d ≡ (record d { app_messages = messages }, ok tt))
  unfolding app_update_in_progress
  show_lem bytes d = elim (Bool-cases (host.elapsed bytes)) [
    | inl due ↦ ((app_update_in_progress host d).0.app_messages, rw due refl)
    | inr early ↦ (d.app_messages, rw early refl)
  ]

  -- The state after a piece: the bytes are counted and written, and an update may have been sent.
  abbrev grown : SingleDownloader → List ℕ → List ℕ → Messages → SingleDownloader
  grown d present payload messages = record d {
    active_downloaded_current_bytes = d.active_downloaded_current_bytes + length payload;
    disk = insert d.disk destination (present ++ payload);
    app_messages = messages;
  }

  module _ (fuel at : ℕ) (d : SingleDownloader) (r : EncryptedStream) (present payload : List ℕ)
      (messages : Messages) (payload_ok : Stream.get_payload cipher r ≡ ok payload)
      (there : get d.disk destination ≡ some present)
      (shown : show
          (d.active_downloaded_current_bytes + length payload)
          (waiting (grown d present payload d.app_messages) r)
        ≡ (waiting (grown d present payload messages) r, ok tt)) where
    receive_chunk :
        (r1 : EncryptedStream) (next : ℕ)
        → (at + length payload == queue_download.file_size) ≡ false
        → Stream.read cipher r ≡ ok r1
        → Stream.get_message r1 ≡ ok next
        → (not (next == msg_file_chunk) && not (next == msg_file_finished)) ≡ false
        → receive_file cipher host format file queue_download destination
            (suc fuel)
            msg_file_chunk
            at
            (waiting d r)
          ≡ receive_file cipher host format file queue_download destination fuel next
              (at + length payload)
              (waiting (grown d present payload messages) r1)
    unfolding receive_file read_receiver poll_loop poll_reverse
    receive_chunk r1 next unfinished read_ok next_ok known =
        rw
          (
            payload_ok,
            append_file_lem
                (waiting
                  (record d {
                    active_downloaded_current_bytes =
                        d.active_downloaded_current_bytes + length payload;
                  })
                  r)
                present payload there,
            shown,
            queued,
            unfinished,
            read_ok,
            next_ok,
            known,
          )
          refl

    receive_finished :
        (at + length payload == queue_download.file_size) ≡ true
        → receive_file cipher host format file queue_download destination
            (suc fuel)
            msg_file_finished
            at
            (waiting d r)
          ≡ complete cipher host format file queue_download destination
              (waiting (grown d present payload messages) r)
    unfolding receive_file
    receive_finished finished =
        rw
          (
            payload_ok,
            append_file_lem
                (waiting
                  (record d {
                    active_downloaded_current_bytes =
                        d.active_downloaded_current_bytes + length payload;
                  })
                  r)
                present payload there,
            shown,
            queued,
            finished,
          )
          refl

  -- What the downloader has at hand when it enters a round.
  abbrev IsReady : SingleDownloader → List ℕ → Type 0
  IsReady d present =
      (host.writable d.path_queue_file ≡ true)
      × (text_eq d.path_queue_file destination ≡ false)
      × (get d.disk destination ≡ some present)

  last_chunk :
      (fuel at msg : ℕ) (rest present : List ℕ) (d : SingleDownloader) (r r' : EncryptedStream)
      → IsReady d present
      → queue_download.file_size ≡ at + length rest
      → Stream.get_message r ≡ ok msg
      → Pending cipher r ((msg_file_finished, rest) ∷ []) r'
      → (d' : SingleDownloader) × (receive_file cipher host format file queue_download destination
            (suc fuel)
            msg
            at
            (waiting d r)
          ≡ (d', ok tt))
        × IsWritten queue_download.path destination (present ++ rest) d d' r'
  last_chunk fuel at msg rest present d r r' ready size msg_ok (pending msg_ok' payload_ok done) =
      let bytes = d.active_downloaded_current_bytes + length rest in
      let (messages, shown) = show_lem bytes (waiting (grown d present rest d.app_messages) r) in
      let msg_eq : msg ≡ msg_file_finished =
        same_message msg msg_file_finished (sym msg_ok ∙ msg_ok') in
      let (d', completed_ok, w) =
        complete-IsWritten (waiting (grown d present rest messages) r) (present ++ rest) ready.0
          ready.1 (get-insert_same d.disk destination (present ++ rest)) in
      (
        d',
        ap
              (λ m.
                receive_file cipher host format file queue_download destination (suc fuel) m at
                  (waiting d r))
              msg_eq
            ∙ receive_finished fuel at d r present rest messages payload_ok ready.2 shown
                (ground (arith, size))
            ∙ completed_ok,
        record {
          written = w.written;
          moved_on = w.moved_on;
          inactive = w.inactive;
          connection = w.connection;
          before = w.before;
          reported = w.reported;
        },
      )

  next_chunk :
      (fuel at msg : ℕ) (part present : List ℕ) (d : SingleDownloader) (r r' : EncryptedStream)
      (ms : List Message)
      → IsReady d present
      → (at + length part == queue_download.file_size) ≡ false
      → 1 ≤ length ms
      → ((r1 : EncryptedStream) (next : ℕ)
          → Stream.get_message r1 ≡ ok next
          → Pending cipher r1 ms r'
          → (not (next == msg_file_chunk) && not (next == msg_file_finished)) ≡ false)
      → Stream.get_message r ≡ ok msg
      → Pending cipher r ((msg_file_chunk, part) ∷ ms) r'
      → (r1 : EncryptedStream) × (next : ℕ) × (messages : Messages) × (receive_file cipher host
            format file queue_download destination
            (suc fuel)
            msg
            at
            (waiting d r)
          ≡ receive_file cipher host format file queue_download destination fuel next
              (at + length part)
              (waiting (grown d present part messages) r1))
        × (Stream.get_message r1 ≡ ok next)
        × Pending cipher r1 ms r'
  next_chunk fuel at msg part present d r r' ms ready unfinished filled known msg_ok
        (pending msg_ok' payload_ok later) =
      let bytes = d.active_downloaded_current_bytes + length part in
      let (messages, shown) = show_lem bytes (waiting (grown d present part d.app_messages) r) in
      let msg_eq : msg ≡ msg_file_chunk = same_message msg msg_file_chunk (sym msg_ok ∙ msg_ok') in
      let (r1, next, read_ok, next_ok, got) = Receives-Pending cipher r r' ms filled later in
      (
        r1,
        next,
        messages,
        ap
              (λ m.
                receive_file cipher host format file queue_download destination (suc fuel) m at
                  (waiting d r))
              msg_eq
            ∙ receive_chunk fuel at d r present part messages payload_ok ready.2 shown r1 next
                unfinished read_ok next_ok (known r1 next next_ok got),
        next_ok,
        got,
      )

  -- The pieces of a file, written one behind the other.
  pub receive_file-chunks :
      (count : ℕ → List ℕ → ℕ) (n fuel at msg : ℕ) (rest present : List ℕ) (d : SingleDownloader)
      (r r' : EncryptedStream)
      → ((at : ℕ) (rest : List ℕ) → 1 ≤ length rest → 1 ≤ count at rest)
      → IsReady d present
      → queue_download.file_size ≡ at + length rest
      → 1 ≤ length rest
      → length rest < n
      → length (chunks count n at rest) ≤ fuel
      → Stream.get_message r ≡ ok msg
      → Pending cipher r (chunks count n at rest) r'
      → (d' : SingleDownloader) × (receive_file cipher host format file queue_download destination
            fuel msg at
            (waiting d r)
          ≡ (d', ok tt))
        × IsWritten queue_download.path destination (present ++ rest) d d' r'
  unfolding chunks
  receive_file-chunks count zero fuel at msg rest present d r r' moves ready size filled long few
        msg_ok got =
      absurd (omega arith)
  receive_file-chunks count (suc n) zero at msg rest present d r r' moves ready size filled long few
        msg_ok got =
      absurd (omega (arith, chunks_filled count (suc n) at rest (omega arith)))
  receive_file-chunks count (suc n) (suc fuel) at msg rest present d r r' moves ready size filled
        long few msg_ok got =
      let step = count at rest in
      elim (Bool-cases (ltb step (length rest))) [
        | inr last ↦
            last_chunk fuel at msg rest present d r r' ready size msg_ok (rw (chunks, last) at got)
        | inl several ↦
            let part = take step rest in
            let behind = is_ltb step (length rest) several in
            let read_all : length part ≡ step = omega (arith, length-take step rest) in
            let (r1, next, messages, run, next_ok, got') =
              next_chunk fuel at msg part present d r r'
                (chunks count n (at + step) (drop step rest)) ready
                (not_equal (at + length part) queue_download.file_size (omega arith))
                (chunks_filled count n (at + step) (drop step rest) (omega arith))
                (λ r1 next.
                  chunks_known cipher count n (at + step) next (drop step rest) r1 r' (omega arith))
                msg_ok (rw (chunks, several) at got) in
            let (d', later, w) =
              receive_file-chunks count n fuel (at + step) next (drop step rest) (present ++ part)
                (grown d present part messages) r1 r' moves
                (ready.0, ready.1, get-insert_same d.disk destination (present ++ part))
                (omega (arith, length-drop step rest)) (omega (arith, length-drop step rest))
                (omega (arith, length-drop step rest, moves at rest filled))
                (few_left (length (chunks count n (at + step) (drop step rest))) fuel
                  (rw (chunks, several) at few))
                next_ok got' in
            (
              d',
              run
                  ∙ ap
                      (λ k.
                        receive_file cipher host format file queue_download destination fuel next
                          (at + k) (waiting (grown d present part messages) r1))
                      read_all
                  ∙ later,
              record {
                written =
                    w.written
                    ∙ ap some (
                        append_assoc present part (drop step rest)
                        ∙ ap (λ t. present ++ t) (take-append-drop step rest));
                moved_on = w.moved_on;
                inactive = w.inactive;
                connection = w.connection;
                before = w.before;
                reported = w.reported;
              },
            )
      ]
