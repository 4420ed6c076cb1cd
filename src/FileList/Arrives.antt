-- ===== src/FileList/Arrives.antt =====
-- The loop of src/outgoing_downloader.rs that collects the file list, and the list's whole way.
use mathlib.Core.Logic.Or
use mathlib.Core.HLevel.{⊥_prop}
use mathlib.Core.List.{Mem, mem-cons, mem-cons_self, mem-cons_of_mem, not-mem-nil}
use transmitic_core.Common.{
  subst, ◌⊎◌, text_eq, text_eq_iff, ℕ, zero, suc, ◌+◌, ◌*◌, ◌<◌, ◌≤◌, ◌≡◌, refl, ap, ap₂, sym, ◌∙◌,
  Bool, true, false, Bool-cases, inl, inr, List, [], ◌∷◌, ◌++◌, length, length-append, length-take,
  length-drop, take, drop, take-append-drop, append_assoc, leb, ltb, ◌==◌, if◌then◌else◌, arith, ok,
}
use transmitic_core.Stream.Consts.{
  max_data_size, msg_file_list_piece, msg_file_list_final, nonce_max,
}
use transmitic_core.Stream.Sealing.{Cipher, IsSealing}
use transmitic_core.Stream.Sending.{IsWritable}
use transmitic_core.Stream.Receiving.{IsReadable}
use transmitic_core.Stream.Sessions.{
  Message, send_all, send_all_total, receive_all-send_all, length-wire,
}
use transmitic_core.Stream.{EncryptedStream}
use transmitic_core.SharedFile.{SizeFormat}
use transmitic_core.AppAggregator.{Text}
use transmitic_core.Uploader.{SingleUploader, success}
use transmitic_core.Uploader.Serving.{send_list, remember_list, contains_nickname}
use transmitic_core.Downloader.{SingleDownloader, Host}
use transmitic_core.Downloader.Transfer.{receive_list, rounds, max_everything_file_size}
use transmitic_core.Stream.Rounds.{Receives, done, more, receive_all-Receives}
use transmitic_core.FileList.{pieces, pieces-IsMessage, length-pieces}
use transmitic_core.FileList.Sent.{undisturbed, send_list-send_all}

not_leb : (a b : ℕ) → leb a b ≡ false → b < a
not_leb a b h = ground arith

if_apply :
    {A B : Type 0} (b : Bool) (f g : A → B) (a : A)
    → (if b then f else g) a ≡ (if b then f a else g a)
if_apply true f g a = refl
if_apply false f g a = refl

module _ (cipher : Cipher) (host : Host) (format : SizeFormat) where
  -- One message of the list.
  receive_list-more :
      (fuel : ℕ) (acc : List ℕ) (m : Message) (ms : List Message) (d : SingleDownloader)
      (r' : EncryptedStream)
      → length (acc ++ m.1) ≤ max_everything_file_size
      → Receives cipher d.encrypted_stream (m ∷ ms) r'
      → (r : EncryptedStream) × (receive_list cipher host format (suc fuel) acc d ≡ (
          if m.0 == msg_file_list_final
          then (record d { encrypted_stream = r }, ok (acc ++ m.1))
          else receive_list cipher host format fuel
              (acc ++ m.1)
              (record d { encrypted_stream = r })))
        × Receives cipher r ms r'
  unfolding receive_list
  receive_list-more fuel acc m ms d r' small (more {r' = r1} read_ok msg_ok payload_ok later) =
      let fits : ltb max_everything_file_size (length (acc ++ m.1)) ≡ false =
        ground (arith, small) in
      (
        r1,
        rw (read_ok, msg_ok, payload_ok, fits) (if_apply (m.0 == msg_file_list_final) _ _ _),
        later,
      )

  nothing_more : {r r' : EncryptedStream} → Receives cipher r [] r' → r ≡ r'
  nothing_more done = refl

  receive_list-Receives :
      (n fuel : ℕ) (acc rest : List ℕ) (d : SingleDownloader) (r' : EncryptedStream)
      → length rest < n
      → length acc + length rest ≤ max_everything_file_size
      → length (pieces n rest) ≤ fuel
      → Receives cipher d.encrypted_stream (pieces n rest) r'
      → receive_list cipher host format fuel acc d
        ≡ (record d { encrypted_stream = r' }, ok (acc ++ rest))
  unfolding pieces
  receive_list-Receives zero fuel acc rest d r' long small rounds got = absurd (omega arith)
  receive_list-Receives (suc n) fuel acc rest d r' long small rounds got =
      elim (Bool-cases (leb (length rest) max_data_size)) [
        | inl last ↦ last_piece fuel d (rw (pieces, last) at rounds) (rw (pieces, last) at got)
        | inr several ↦
            piece fuel d (not_leb (length rest) max_data_size several)
              (rw (pieces, several) at rounds) (rw (pieces, several) at got)
              (λ fuel d.
                receive_list-Receives n fuel (acc ++ take max_data_size rest)
                  (drop max_data_size rest) d r'
                  (omega (
                    arith,
                    length-drop max_data_size rest,
                    not_leb (length rest) max_data_size several,
                  ))
                  (omega (
                    arith,
                    length-append acc (take max_data_size rest),
                    length-take max_data_size rest,
                    length-drop max_data_size rest,
                  )))
      ]
    where
      last_piece :
          (fuel : ℕ) (d : SingleDownloader)
          → 1 ≤ fuel
          → Receives cipher d.encrypted_stream ((msg_file_list_final, rest) ∷ []) r'
          → receive_list cipher host format fuel acc d
            ≡ (record d { encrypted_stream = r' }, ok (acc ++ rest))
      last_piece zero d rounds got = absurd (omega arith)
      last_piece (suc fuel) d rounds got =
          let (r, step, end) =
            receive_list-more fuel acc (msg_file_list_final, rest) [] d r'
              (omega (arith, length-append acc rest)) got in
          step ∙ ap (λ r. (record d { encrypted_stream = r }, ok (acc ++ rest))) (nothing_more end)

      piece :
          (fuel : ℕ) (d : SingleDownloader)
          → max_data_size < length rest
          → suc (length (pieces n (drop max_data_size rest))) ≤ fuel
          → Receives cipher d.encrypted_stream
              ((msg_file_list_piece, take max_data_size rest) ∷ pieces n (drop max_data_size rest))
              r'
          → ((fuel : ℕ) (d : SingleDownloader)
              → length (pieces n (drop max_data_size rest)) ≤ fuel
              → Receives cipher d.encrypted_stream (pieces n (drop max_data_size rest)) r'
              → receive_list cipher host format fuel (acc ++ take max_data_size rest) d ≡ (
                record d { encrypted_stream = r' },
                ok ((acc ++ take max_data_size rest) ++ drop max_data_size rest),
              ))
          → receive_list cipher host format fuel acc d
            ≡ (record d { encrypted_stream = r' }, ok (acc ++ rest))
      piece zero d many rounds got later = absurd (omega arith)
      piece (suc fuel) d many rounds got later =
          let (r, step, got') =
            receive_list-more fuel acc (msg_file_list_piece, take max_data_size rest) _ d r'
              (omega (
                arith,
                length-append acc (take max_data_size rest),
                length-take max_data_size rest,
              ))
              got in
          step
          ∙ later fuel (record d { encrypted_stream = r }) (omega arith) got'
          ∙ ap (λ t. (record d { encrypted_stream = r' }, ok t))
              (append_assoc acc (take max_data_size rest) (drop max_data_size rest)
                ∙ ap (λ t. acc ++ t) (take-append-drop max_data_size rest))

-- The name is behind the others afterwards, if it was not among them.
abbrev pub IsAdded : Text → List Text → List Text → Type 0
IsAdded name before after =
    (Mem name before × (after ≡ before)) ⊎ ((¬ Mem name before) × (after ≡ before ++ (name ∷ [])))

contains_nickname-Mem :
    (names : List Text) (name : Text) → contains_nickname names name ≡ true → Mem name names
unfolding contains_nickname
contains_nickname-Mem [] name h = cc
contains_nickname-Mem (x ∷ names) name h = elim (Bool-cases (text_eq x name)) [
  | inl same ↦ subst (λ y. Mem name (y ∷ names)) (sym ((text_eq_iff x name).0 same)) mem-cons_self
  | inr other ↦ mem-cons_of_mem x (contains_nickname-Mem names name (ground (arith, h, other)))
]

not-contains_nickname-Mem :
    (names : List Text) (name : Text) → contains_nickname names name ≡ false → ¬ Mem name names
unfolding contains_nickname
not-contains_nickname-Mem [] name h m = not-mem-nil m
not-contains_nickname-Mem (x ∷ names) name h m = elim (Bool-cases (text_eq x name)) [
  | inl same ↦ ground (arith, h, same)
  | inr other ↦
      Or.elim ⊥_prop (mem-cons.0 m) (λ e. cc ((text_eq_iff x name).1 (sym e), other))
        (not-contains_nickname-Mem names name (ground (arith, h, other)))
]

remember_list-IsAdded :
    (v : SingleUploader)
    → (names : List Text) × (remember_list v ≡ record v { reverse_file_list = names })
      × IsAdded v.nickname v.reverse_file_list names
remember_list-IsAdded v = elim (Bool-cases (contains_nickname v.reverse_file_list v.nickname)) [
  | inl known ↦ (
    v.reverse_file_list,
    rw known refl,
    inl (contains_nickname-Mem v.reverse_file_list v.nickname known, refl),
  )
  | inr fresh ↦ (
    v.reverse_file_list ++ (v.nickname ∷ []),
    rw fresh refl,
    inr (not-contains_nickname-Mem v.reverse_file_list v.nickname fresh, refl),
  )
]

module _ (cipher : Cipher) (law : IsSealing cipher) (u : SingleUploader) (json : List ℕ) where
  abbrev list_messages : List Message
  list_messages = pieces (length json + 1) json

  list_nonces :
      u.encrypted_stream.nonce + 2 * (length json + 1) ≤ nonce_max
      → u.encrypted_stream.nonce + 2 * length list_messages ≤ nonce_max
  list_nonces h = omega (arith, length-pieces (length json + 1) json)

  undisturbed_eq : u.polls ≡ [] → u.should_shutdown ≡ false → u ≡ undisturbed u u.encrypted_stream
  undisturbed_eq polls running =
      ap₂ (λ p b. record u { polls = p; should_shutdown = b }) polls running

  send_list_whole :
      u.polls ≡ []
      → u.should_shutdown ≡ false
      → IsWritable u.encrypted_stream
      → u.encrypted_stream.nonce + 2 * (length json + 1) ≤ nonce_max
      → (s' : EncryptedStream) × (send_all cipher u.encrypted_stream list_messages ≡ ok s')
        × (send_list cipher (length json + 1) json 0 (length json) u
            ≡ (remember_list (record u { encrypted_stream = s' }), ok success))
  send_list_whole polls running writable nonces =
      let (s', sent, up, down) =
        send_all_total cipher law u.encrypted_stream list_messages writable
          (pieces-IsMessage (length json + 1) json) (list_nonces nonces) in
      let whole =
        send_list-send_all cipher (length json + 1) json 0 (length json) u u.encrypted_stream s'
          (omega arith) (omega arith) sent in
      (
        s',
        sent,
        ap (send_list cipher (length json + 1) json 0 (length json)) (undisturbed_eq polls running)
            ∙ whole
            ∙ ap₂
                (λ p b. (
                  remember_list
                      (record u { polls = p; should_shutdown = b; encrypted_stream = s' }),
                  ok success,
                ))
                (sym polls) (sym running),
      )

  -- A list that nothing interrupts is sent to its end: where the thread has no message and is not
  -- told to stop, and its stream can be written and has nonces to spare, the loop succeeds, and only
  -- the connection and the nicknames that have the latest list have changed: the nickname is added
  -- behind these if it was not among them, and they are the same if it was.
  pub send_list_total :
      u.polls ≡ []
      → u.should_shutdown ≡ false
      → IsWritable u.encrypted_stream
      → u.encrypted_stream.nonce + 2 * (length json + 1) ≤ nonce_max
      → (s' : EncryptedStream) × (names : List Text) × (send_all cipher u.encrypted_stream
            list_messages
          ≡ ok s')
        × (send_list cipher (length json + 1) json 0 (length json) u
            ≡ (record u { encrypted_stream = s'; reverse_file_list = names }, ok success))
        × IsAdded u.nickname u.reverse_file_list names
  send_list_total polls running writable nonces =
      let (s', sent, whole) = send_list_whole polls running writable nonces in
      let (names, same, added) = remember_list-IsAdded (record u { encrypted_stream = s' }) in
      (s', names, sent, whole ∙ ap (λ v. (v, ok success)) same, added)

  remember_list-stream :
      (v : SingleUploader) → (remember_list v).encrypted_stream ≡ v.encrypted_stream
  remember_list-stream v = elim (Bool-cases (contains_nickname v.reverse_file_list v.nickname)) [
    | inl known ↦ rw known refl
    | inr fresh ↦ rw fresh refl
  ]

  -- The file list arrives: where the uploader has no message and is not told to stop, its stream can
  -- be written and has nonces to spare, and the list has at most `MAX_EVERYTHING_FILE_SIZE` bytes, a
  -- downloader with the same key and nonce that finds the bytes which the uploader wrote at the front
  -- of its input collects exactly the list, in the rounds it has, and leaves the input behind it alone.
  pub receive_list-send_list :
      (host : Host) (format : SizeFormat) (u' : SingleUploader) (d : SingleDownloader)
      (wire rest : List ℕ)
      → u.polls ≡ []
      → u.should_shutdown ≡ false
      → IsWritable u.encrypted_stream
      → u.encrypted_stream.nonce + 2 * (length json + 1) ≤ nonce_max
      → length json ≤ max_everything_file_size
      → IsReadable d.encrypted_stream
      → d.encrypted_stream.nonce ≡ u.encrypted_stream.nonce
      → send_list cipher (length json + 1) json 0 (length json) u ≡ (u', ok success)
      → u'.encrypted_stream.stream.outbound ≡ u.encrypted_stream.stream.outbound ++ wire
      → d.encrypted_stream.stream.inbound ≡ wire ++ rest
      → (r' : EncryptedStream) × (receive_list cipher host format (rounds d) [] d
          ≡ (record d { encrypted_stream = r' }, ok json))
        × (r'.stream.inbound ≡ rest)
  receive_list-send_list host format u' d wire rest polls running writable nonces small readable
        same sent_list out inbound =
      let ms = list_messages in
      let s = u.encrypted_stream in
      let (s', sent, whole) = send_list_whole polls running writable nonces in
      let u_eq : remember_list (record u { encrypted_stream = s' }) ≡ u' =
        ap (λ r. r.0) (sym whole ∙ sent_list) in
      let out' : s'.stream.outbound ≡ s.stream.outbound ++ wire =
        ap (λ t. t.stream.outbound)
          (sym (remember_list-stream (record u { encrypted_stream = s' }))
            ∙ ap (λ v. v.encrypted_stream) u_eq)
        ∙ out in
      let good = pieces-IsMessage (length json + 1) json in
      let (r', got, left, nonce_eq) =
        receive_all-send_all cipher law s s' d.encrypted_stream ms wire rest writable readable good
          (list_nonces nonces) sent out' same inbound in
      let few = length-wire cipher law s s' ms wire writable good (list_nonces nonces) sent out' in
      let received = receive_all-Receives cipher d.encrypted_stream r' ms got in
      let input : length d.encrypted_stream.stream.inbound ≡ length (wire ++ rest) =
        ap length inbound in
      (
        r',
        receive_list-Receives cipher host format (length json + 1) (rounds d) [] json d r'
            (omega arith) (omega arith) (omega (arith, few, input, length-append wire rest))
            received,
        left,
      )
