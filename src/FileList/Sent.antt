-- ===== src/FileList/Sent.antt =====
-- The loop of src/incoming_uploader.rs that sends the file list, as a run of `write`.
use transmitic_core.Common.{
  ℕ, zero, suc, ◌+◌, ◌-◌, ◌<◌, ◌≤◌, ◌≡◌, refl, ap, ◌∙◌, false, Bool-cases, inl, inr, List, [], ◌∷◌,
  length, length-drop, take, drop, drop-drop, slice, slice_in_range, leb, arith, ok, bind-ok,
}
use transmitic_core.Stream.Consts.{max_data_size, msg_file_list_piece, msg_file_list_final}
use transmitic_core.Stream.Sealing.{Cipher}
use transmitic_core.Stream.Sessions.{send_all}
use transmitic_core.Stream
use transmitic_core.Stream.{EncryptedStream, StreamError}
use transmitic_core.Uploader.{SingleUploader, success, UploadError, read_receiver, poll_loop}
use transmitic_core.Uploader.Serving.{send_list, remember_list}
use transmitic_core.FileList.{pieces}

-- A thread that nobody has told to stop, with its connection.
abbrev pub undisturbed : SingleUploader → EncryptedStream → SingleUploader
undisturbed u s = record u { polls = []; should_shutdown = false; encrypted_stream = s }

pub take_all : (n : ℕ) (xs : List ℕ) → length xs ≤ n → take n xs ≡ xs
take_all zero [] h = refl
take_all zero (x ∷ xs) h = absurd (omega arith)
take_all (suc n) [] h = refl
take_all (suc n) (x ∷ xs) h = ap (λ l. x ∷ l) (take_all n xs (omega arith))

not_leb : (a b : ℕ) → leb a b ≡ false → b < a
not_leb a b h = ground arith

module _ (json : List ℕ) (sent remaining : ℕ) (sum : sent + remaining ≡ length json) where
  slice_rest : slice {E = UploadError} json sent (remaining + sent) ≡ ok (drop sent json)
  slice_rest =
      slice_in_range json sent (remaining + sent) (omega arith) (omega arith)
      ∙ ap ok (
          take_all (remaining + sent - sent) (drop sent json)
            (omega (arith, length-drop sent json)))

  slice_piece :
      max_data_size ≤ remaining
      → slice {E = UploadError} json sent (max_data_size + sent)
        ≡ ok (take max_data_size (drop sent json))
  slice_piece h =
      slice_in_range json sent (max_data_size + sent) (omega arith) (omega arith)
      ∙ ap (λ n. ok (take n (drop sent json)))
          (let e : max_data_size + sent - sent ≡ max_data_size = omega arith in e)

module _ (cipher : Cipher) where
  pub send_list-send_all :
      (fuel : ℕ) (json : List ℕ) (sent remaining : ℕ) (u : SingleUploader) (s s' : EncryptedStream)
      → sent + remaining ≡ length json
      → remaining < fuel
      → send_all cipher s (pieces fuel (drop sent json)) ≡ ok s'
      → send_list cipher fuel json sent remaining (undisturbed u s)
        ≡ (remember_list (undisturbed u s'), ok success)
  unfolding send_list send_all pieces read_receiver poll_loop
  send_list-send_all zero json sent remaining u s s' sum enough run = absurd (omega arith)
  send_list-send_all (suc fuel) json sent remaining u s s' sum enough run =
      let left : length (drop sent json) ≡ remaining = omega (arith, length-drop sent json) in
      elim (Bool-cases (leb remaining max_data_size)) [
        | inl last ↦
            let run' = rw (pieces, left, last) at run in
            let (s1, w, e) =
              bind-ok (Stream.write cipher s msg_file_list_final (drop sent json)) _ _ run' in
            let s_eq : s1 ≡ s' = cc in rw (last, slice_rest json sent remaining sum, w, s_eq) refl
        | inr more ↦
            let many : max_data_size < remaining = not_leb remaining max_data_size more in
            let run' = rw (pieces, left, more) at run in
            let (s1, w, e) =
              bind-ok
                (Stream.write cipher s msg_file_list_piece (take max_data_size (drop sent json))) _
                _ run' in
            let e' = rw (drop-drop max_data_size sent json) at e in
            rw (more, slice_piece json sent remaining sum (omega arith), w)
              (send_list-send_all fuel json (sent + max_data_size) (remaining - max_data_size) u s1
                s' (omega arith) (omega arith) e')
      ]
