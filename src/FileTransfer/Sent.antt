-- ===== src/FileTransfer/Sent.antt =====
-- The loop of src/incoming_uploader.rs that sends a file, as a run of `write`.
use transmitic_core.Common.{
  ℕ, zero, suc, ◌+◌, ◌<◌, ◌≤◌, ◌≡◌, refl, ◌∙◌, true, false, Bool-cases, inl, inr, List, [], ◌∷◌,
  ◌++◌, length, length-drop, take, drop, ltb, leb, ◌==◌, if◌then◌else◌, arith, ok, bind-ok,
}
use transmitic_core.Stream.Consts.{msg_file_chunk, msg_file_finished}
use transmitic_core.Stream.Sealing.{Cipher}
use transmitic_core.Stream.Sessions.{send_all}
use transmitic_core.Stream
use transmitic_core.Stream.{EncryptedStream}
use transmitic_core.AppAggregator.{Text, upload_state_change}
use transmitic_core.Uploader.{SingleUploader, read_receiver, poll_loop}
use transmitic_core.Uploader.Serving.{Os, send_file, throttled_update}
use transmitic_core.FileList.Sent.{undisturbed, take_all}
use transmitic_core.FileTransfer.{IsReading, chunks}

not_ltb : (a b : ℕ) → ltb a b ≡ false → b ≤ a
not_ltb a b h = ground arith

is_ltb : (a b : ℕ) → ltb a b ≡ true → a < b
is_ltb a b h = ground arith

reached : (a b : ℕ) → a ≤ b → leb a b ≡ true
reached a b h = ground arith

not_reached : (a b : ℕ) → b < a → leb a b ≡ false
not_reached a b h = ground arith

not_zero : (n : ℕ) → 1 ≤ n → (n == 0) ≡ false
not_zero n h = ground arith

module _ (cipher : Cipher) (os : Os) (nickname choice : Text) (size : ℕ) (count : ℕ → List ℕ → ℕ)
    (reading : IsReading os count) where
  -- An update may have been sent, and nothing else has happened.
  throttled_update_lem :
      (sent : ℕ) (u : SingleUploader) (s : EncryptedStream)
      → (u' : SingleUploader) × (throttled_update os nickname choice sent size (undisturbed u s)
          ≡ (undisturbed u' s, ok tt))
  unfolding throttled_update
  throttled_update_lem sent u s = elim (Bool-cases (os.elapsed sent)) [
    | inl due ↦ (shown, rw due refl)
    | inr early ↦ (u, rw early refl)
  ]
    where
      shown : SingleUploader
      shown = record u {
        app_messages =
            u.app_messages
            ++ (upload_state_change (record {
              nickname = nickname;
              path = choice;
              percent = if ltb (os.percent sent size) 100 then os.percent sent size else 99;
              is_online = true;
            })
                ∷ []);
      }

  -- A round that is not the last.
  send_chunk :
      (fuel at : ℕ) (rest : List ℕ) (u u1 : SingleUploader) (s s1 : EncryptedStream)
      → leb size (at + count at rest) ≡ false
      → (count at rest == 0) ≡ false
      → Stream.write cipher s msg_file_chunk (take (count at rest) rest) ≡ ok s1
      → throttled_update os nickname choice (at + count at rest) size (undisturbed u s1)
        ≡ (undisturbed u1 s1, ok tt)
      → send_file cipher os nickname choice size (suc fuel) rest at (undisturbed u s)
        ≡ send_file cipher os nickname choice size fuel
            (drop (count at rest) rest)
            (at + count at rest)
            (undisturbed u1 s1)
  unfolding send_file read_receiver poll_loop
  send_chunk fuel at rest u u1 s s1 going moved w shown =
      rw (reading.succeeds at rest, going, moved, w, shown) refl

  pub send_file-send_all :
      (fuel at : ℕ) (rest : List ℕ) (u : SingleUploader) (s s' : EncryptedStream)
      → 1 ≤ length rest
      → length rest < fuel
      → size ≡ at + length rest
      → send_all cipher s (chunks count fuel at rest) ≡ ok s'
      → (u' : SingleUploader) × (send_file cipher os nickname choice size fuel rest at
            (undisturbed u s)
          ≡ (undisturbed u' s', ok true))
  unfolding send_file send_all chunks read_receiver poll_loop
  send_file-send_all zero at rest u s s' filled enough sum run = absurd (omega arith)
  send_file-send_all (suc fuel) at rest u s s' filled enough sum run =
      let n = count at rest in
      let some_read = reading.moves at rest filled in
      elim (Bool-cases (ltb n (length rest))) [
        | inr last ↦
            let all : length rest ≤ n = not_ltb n (length rest) last in
            let done : leb size (at + n) ≡ true = reached size (at + n) (omega arith) in
            let run' = rw (chunks, last) at run in
            let (s1, w, e) = bind-ok (Stream.write cipher s msg_file_finished rest) _ _ run' in
            let s_eq : s1 ≡ s' = cc in
            (u, rw (reading.succeeds at rest, done, take_all n rest all, w, s_eq) refl)
        | inl more ↦
            let rest_left : n < length rest = is_ltb n (length rest) more in
            let going : leb size (at + n) ≡ false = not_reached size (at + n) (omega arith) in
            let moved : (n == 0) ≡ false = not_zero n some_read in
            let run' = rw (chunks, more) at run in
            let (s1, w, e) =
              bind-ok (Stream.write cipher s msg_file_chunk (take n rest)) _ _ run' in
            let (u1, shown) = throttled_update_lem (at + n) u s1 in
            let (u2, later) =
              send_file-send_all fuel (at + n) (drop n rest) u1 s1 s'
                (omega (arith, length-drop n rest)) (omega (arith, length-drop n rest))
                (omega (arith, length-drop n rest)) e in
            (u2, send_chunk fuel at rest u u1 s s1 going moved w shown ∙ later)
      ]
