-- ===== src/FileTransfer.antt =====
-- A file on its way from an uploader to a downloader: the loop of `run_loop` of
-- src/incoming_uploader.rs that sends it and the loop of `download_shared_file` of
-- src/outgoing_downloader.rs that writes it, at the two ends of one connection. The messages on the
-- wire are described here.
pub mod Sent
pub mod Written
pub mod Arrives
mod Tests
use transmitic_core.Common.{
  ℕ, zero, suc, ◌+◌, ◌-◌, ◌*◌, ◌^◌, ◌<◌, ◌≤◌, ◌≡◌, refl, true, false, Bool-cases, inl, inr, List,
  [], ◌∷◌, All, length, length-take, length-drop, take, drop, ltb, if◌then◌else◌, arith, some,
}
use transmitic_core.Stream.Consts.{max_data_size, msg_file_chunk, msg_file_finished}
use transmitic_core.Stream.Sessions.{Message, IsMessage}
use transmitic_core.Uploader.Serving.{Os}

-- How many bytes each call of `read` returns, by the position and what is left: some, and at most as
-- many as the buffer holds and as are left.
pub record IsReading (os : Os) (count : ℕ → List ℕ → ℕ) : Type 0 where
  pub succeeds : (at : ℕ) (rest : List ℕ) → os.read_count at rest ≡ some (count at rest)
  pub fits : (at : ℕ) (rest : List ℕ) → count at rest ≤ max_data_size
  pub there : (at : ℕ) (rest : List ℕ) → count at rest ≤ length rest
  pub moves : (at : ℕ) (rest : List ℕ) → 1 ≤ length rest → 1 ≤ count at rest

-- A file that is not empty, in the pieces of a way to read it, the last one marked, on fuel.
unfoldable pub chunks : (ℕ → List ℕ → ℕ) → ℕ → ℕ → List ℕ → List Message
chunks count zero at rest = []
chunks count (suc fuel) at rest =
    let n = count at rest in
    let later = chunks count fuel (at + n) (drop n rest) in
    if ltb n (length rest)
    then (msg_file_chunk, take n rest) ∷ later
    else (msg_file_finished, rest) ∷ []

module _ {os : Os} {count : ℕ → List ℕ → ℕ} (reading : IsReading os count) where
  pub chunks-IsMessage : (fuel at : ℕ) (rest : List ℕ) → All IsMessage (chunks count fuel at rest)
  unfolding chunks
  chunks-IsMessage zero at rest = tt
  chunks-IsMessage (suc fuel) at rest =
      let n = count at rest in
      elim (Bool-cases (ltb n (length rest))) [
        | inl more ↦ rw more (
          (omega arith, omega (arith, length-take n rest, reading.fits at rest)),
          chunks-IsMessage fuel (at + n) (drop n rest),
        )
        | inr last ↦ rw last ((omega arith, ground (arith, last, reading.fits at rest)), tt)
      ]

pub length-chunks :
    (count : ℕ → List ℕ → ℕ) (fuel at : ℕ) (rest : List ℕ)
    → length (chunks count fuel at rest) ≤ fuel
unfolding chunks
length-chunks count zero at rest = omega arith
length-chunks count (suc fuel) at rest =
    let n = count at rest in
    elim (Bool-cases (ltb n (length rest))) [
      | inl more ↦ rw more (omega (arith, length-chunks count fuel (at + n) (drop n rest)))
      | inr last ↦ rw last (omega arith)
    ]
