-- ===== src/Uploader.antt =====
-- One upload thread: `SingleUploader` of src/incoming_uploader.rs. The connection, the messages
-- for the app and the list that the threads share are part of its state. `polls` is what each
-- `try_recv` will find, in order, and nothing once it is used up. The app's receiver outlives
-- the threads, so a send to it succeeds.
pub mod Texts
pub mod Serving
use transmitic_core.Common.{
  ℕ, Bool, true, false, Option, none, some, List, [], ◌∷◌, ◌++◌, Outcome, ok, err, panic, text_eq,
  if◌then◌else◌,
}
use transmitic_core.Common.Actions.{
  TryRecv, value, empty, disconnected, Action, pure, raise, gets, modify, lift, ◌>>=◌, ◌>>◌,
}
use transmitic_core.Stream.Sealing.{Cipher}
use transmitic_core.Stream
use transmitic_core.Stream.{EncryptedStream, StreamError}
use transmitic_core.Config.{SharedUser}
use transmitic_core.AppAggregator.{Text, AppAggMessage, log_info}
use Texts.{quote, receiver_gone, between, disconnected_text}

-- A connection with its owner, the remaining fields of `EncryptedStream`.
pub record OwnedStream : Type 0 where
  pub encrypted_stream : EncryptedStream
  pub shared_user : SharedUser
  pub private_id_bytes : List ℕ

pub data MessageSingleUploader : Type 0 where
  shutdown_conn do_nothing : MessageSingleUploader

pub data RunLoopResult : Type 0 where
  success reverse_connection : RunLoopResult

pub data UploadError : Type 0 where
  stream : StreamError → UploadError
  invalid_selection : ℕ → UploadError
  not_utf8 file_not_opened file_not_read out_of_fuel : UploadError

pub record SingleUploader : Type 0 where
  pub nickname : Text
  pub should_shutdown : Bool
  pub active_msg : ℕ
  pub polls : List (TryRecv MessageSingleUploader)
  pub encrypted_stream : EncryptedStream
  pub reverse_file_list : List Text
  pub app_messages : List (AppAggMessage OwnedStream)

abbrev pub Upload : Type 0 → Type 0
Upload A = Action SingleUploader UploadError A

-- `app_sender.send`
abbrev pub send : AppAggMessage OwnedStream → Upload (Unit {0})
send m = modify (λ u. record u { app_messages = u.app_messages ++ (m ∷ []) })

-- What a call on the stream does to the thread. After an error the stream is dropped.
abbrev pub set_stream :
    SingleUploader
    → Outcome StreamError EncryptedStream
    → SingleUploader × Outcome UploadError (Unit {0})
set_stream u (ok s) = (record u { encrypted_stream = s }, ok tt)
set_stream u (err e) = (u, err (stream e))
set_stream u panic = (u, panic)

abbrev pub stream_value : {A : Type 0} → Outcome StreamError A → Outcome UploadError A
stream_value (ok a) = ok a
stream_value (err e) = err (stream e)
stream_value panic = panic

module _ (cipher : Cipher) where
  abbrev pub read : Upload (Unit {0})
  read u = set_stream u (transmitic_core.Stream.read cipher u.encrypted_stream)

  abbrev pub write : ℕ → List ℕ → Upload (Unit {0})
  write msg payload u =
      set_stream u (transmitic_core.Stream.write cipher u.encrypted_stream msg payload)

  abbrev pub get_payload : Upload (List ℕ)
  get_payload u = (u, stream_value (transmitic_core.Stream.get_payload cipher u.encrypted_stream))

abbrev pub get_message : Upload ℕ
get_message u = (u, stream_value (transmitic_core.Stream.get_message u.encrypted_stream))

-- The loop of `read_receiver`, over what the polls find.
unfoldable pub poll_loop : List (TryRecv MessageSingleUploader) → SingleUploader → SingleUploader
poll_loop [] u = record u { polls = [] }
poll_loop (value shutdown_conn ∷ polls) u = poll_loop polls (record u { should_shutdown = true })
poll_loop (value do_nothing ∷ polls) u = poll_loop polls u
poll_loop (empty ∷ polls) u = record u { polls = polls }
poll_loop (disconnected ∷ polls) u = record u {
  polls = disconnected ∷ polls;
  should_shutdown = true;
  app_messages =
      u.app_messages
      ++ (log_info (receiver_gone ++ u.nickname ++ between ++ disconnected_text ++ quote) ∷ []);
}

unfoldable pub read_receiver : Upload (Unit {0})
read_receiver u = (poll_loop u.polls u, ok tt)
