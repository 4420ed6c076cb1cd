-- ===== src/FileList.antt =====
-- The file list on its way from an uploader to a downloader: `run_loop` of
-- src/incoming_uploader.rs and `download_everything_file` of src/outgoing_downloader.rs at the two
-- ends of one connection of src/encrypted_stream.rs. The messages on the wire are described here.
pub mod Sent
pub mod Arrives
mod Tests
use transmitic_core.Common.{
  ℕ, zero, suc, ◌+◌, ◌-◌, ◌*◌, ◌^◌, ◌<◌, ◌≤◌, ◌≡◌, refl, ap, ap₂, sym, subst, ◌∙◌, true, false,
  Bool-cases, inl, inr, List, [], ◌∷◌, ◌++◌, All, length, length-take, length-drop, take, drop, leb,
  if◌then◌else◌, arith, Outcome, ok, bind-ok,
}
use transmitic_core.Stream.Consts.{max_data_size, msg_file_list_piece, msg_file_list_final}
use transmitic_core.Stream.Sealing.{Cipher}
use transmitic_core.Stream.Sessions.{Message, IsMessage, receive_all}
use transmitic_core.Stream.{EncryptedStream, StreamError, read, get_message, get_payload}

-- A text in pieces of the greatest size, the last one marked, on fuel.
unfoldable pub pieces : ℕ → List ℕ → List Message
pieces zero rest = []
pieces (suc fuel) rest =
    let later = pieces fuel (drop max_data_size rest) in
    if leb (length rest) max_data_size
    then (msg_file_list_final, rest) ∷ []
    else (msg_file_list_piece, take max_data_size rest) ∷ later

pub pieces-IsMessage : (fuel : ℕ) (rest : List ℕ) → All IsMessage (pieces fuel rest)
unfolding pieces
pieces-IsMessage zero rest = tt
pieces-IsMessage (suc fuel) rest = elim (Bool-cases (leb (length rest) max_data_size)) [
  | inl last ↦ rw last ((omega arith, ground (arith, last)), tt)
  | inr more ↦ rw more (
    (omega arith, omega (arith, length-take max_data_size rest)),
    pieces-IsMessage fuel (drop max_data_size rest),
  )
]

pub length-pieces : (fuel : ℕ) (rest : List ℕ) → length (pieces fuel rest) ≤ fuel
unfolding pieces
length-pieces zero rest = omega arith
length-pieces (suc fuel) rest = elim (Bool-cases (leb (length rest) max_data_size)) [
  | inl last ↦ rw last (omega arith)
  | inr more ↦ rw more (omega (arith, length-pieces fuel (drop max_data_size rest)))
]
