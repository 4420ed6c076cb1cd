-- ===== src/Stream/Receiving.antt =====
-- `read` of src/encrypted_stream.rs against the frames on the wire.
use transmitic_core.Common.{
  ℕ, ◌+◌, ◌^◌, ◌<◌, ◌≤◌, ◌≡◌, refl, ap, ◌∙◌, false, some, List, [], ◌++◌, if◌then◌else◌, length,
  length-append, length-drop, take, drop, take-append_length, drop-append_length, arith,
  append_assoc, ltb, ◌==◌, ok, panic, slice_in_range, copy_in_range, length-copy, slice_too_long,
}
use transmitic_core.Stream.Consts.{
  crc_size, max_data_size, is_crc_payload, crypto_extension_size, nonce_max, total_buffer_size,
  total_crypto_buffer_size,
}
use transmitic_core.Stream.Sealing.{Cipher, IsSealing}
use transmitic_core.Stream.Frames.{header, length-header, body, length-body, Frame, bare, full}
use transmitic_core.Stream.Sending.{slice_front, copy_front}
use transmitic_core.Stream.{
  nonce_bytes, EncryptedStream, StreamError, read, read_block, read_stream, increment_nonce,
}
use transmitic_core.Stream.Payload.{
  Holds, holds_bare, holds_full, slice_size, size_back, get_message_lem,
}

-- The stream after `xs` has been read.
abbrev taken : EncryptedStream → List ℕ → List ℕ → EncryptedStream
taken s xs rest = record s {
  stream = record (s.stream) { inbound = rest };
  crypto_buffer = xs ++ drop (length xs) s.crypto_buffer;
}

read_stream_lem :
    (s : EncryptedStream) (xs rest : List ℕ) (n : ℕ)
    → length xs ≡ n
    → n ≤ length s.crypto_buffer
    → s.stream.inbound ≡ xs ++ rest
    → read_stream s n ≡ ok (taken s xs rest)
unfolding read_stream
read_stream_lem s xs rest n len fits e =
    rw
      (
        slice_in_range {E = StreamError} s.crypto_buffer 0 n (omega arith) fits,
        e,
        ltb_append xs rest n len,
        take-append_length n xs rest len,
        drop-append_length n xs rest len,
        copy_front xs s.crypto_buffer n len fits,
        ← len,
      )
      refl
  where
    ltb_append : (xs rest : List ℕ) (n : ℕ) → length xs ≡ n → ltb (length (xs ++ rest)) n ≡ false
    ltb_append xs rest n len = ground (arith, length-append xs rest)

-- A stream with its buffers, which can be read from.
abbrev pub IsReadable : EncryptedStream → Type 0
IsReadable s =
    (length s.buffer ≡ total_buffer_size) × (length s.crypto_buffer ≡ total_crypto_buffer_size)

-- What `read` changes: the frame is off the wire, the buffer holds the message and the nonce
-- has moved on.
pub record IsReceived (cipher : Cipher) (s s' : EncryptedStream) (msg : ℕ) (payload rest : List ℕ)
    (nonce : ℕ) : Type 0 where
  pub outbound : s'.stream.outbound ≡ s.stream.outbound
  pub inbound : s'.stream.inbound ≡ rest
  pub nonce_moved : s'.nonce ≡ nonce
  pub holds : Holds cipher msg payload s'.buffer
  pub readable : IsReadable s'

module _ (cipher : Cipher) (law : IsSealing cipher) where
  -- The stream after a block has been read into the buffer at `lo`.
  abbrev unsealed : EncryptedStream → ℕ → List ℕ → List ℕ → List ℕ → EncryptedStream
  unsealed s lo plain sealed rest = record s {
    stream = record (s.stream) { inbound = rest };
    crypto_buffer = sealed ++ drop (length sealed) s.crypto_buffer;
    buffer = take lo s.buffer ++ (plain ++ drop (lo + length plain) s.buffer);
    nonce = s.nonce + 1;
  }

  read_block_lem :
      (s : EncryptedStream) (lo n : ℕ) (failure : StreamError) (plain sealed rest : List ℕ)
      → IsReadable s
      → s.nonce < nonce_max
      → s.stream.inbound ≡ sealed ++ rest
      → cipher.encrypt (nonce_bytes s.nonce) plain ≡ some sealed
      → length plain + 16 ≡ n
      → lo + length plain ≤ total_buffer_size
      → read_block cipher s lo n failure ≡ ok (unsealed s lo plain sealed rest, length plain)
  unfolding read_block increment_nonce
  read_block_lem s lo n failure plain sealed rest hr hn hi sealing size fits =
      let len : length sealed ≡ n =
        omega (arith, law.length-encrypt (nonce_bytes s.nonce) plain sealed sealing) in
      rw
        (
          read_stream_lem s sealed rest n len (omega arith) hi,
          slice_front sealed (drop (length sealed) s.crypto_buffer) n len,
          law.decrypt-encrypt (nonce_bytes s.nonce) plain sealed sealing,
          copy_in_range {E = StreamError} s.buffer lo plain (lo + length plain) refl (omega arith),
        )
        (ground arith)

  read_block_too_long :
      (s : EncryptedStream) (lo n : ℕ) (failure : StreamError)
      → length s.crypto_buffer < n
      → read_block cipher s lo n failure ≡ panic
  unfolding read_block read_stream
  read_block_too_long s lo n failure h = rw (slice_too_long {E = StreamError} s.crypto_buffer 0 n h)

  unsealed-IsReadable :
      (s : EncryptedStream) (lo : ℕ) (plain sealed rest : List ℕ)
      → IsReadable s
      → lo + length plain ≤ total_buffer_size
      → length sealed ≤ total_crypto_buffer_size
      → IsReadable (unsealed s lo plain sealed rest)
  unsealed-IsReadable s lo plain sealed rest hr fits crypto_fits = (
    length-copy s.buffer lo plain (lo + length plain) refl (omega arith) ∙ hr.0,
    omega (
      arith,
      length-append sealed (drop (length sealed) s.crypto_buffer),
      length-drop (length sealed) s.crypto_buffer,
    ),
  )

  -- The stream after the header has been read.
  abbrev header_read : EncryptedStream → ℕ → List ℕ → List ℕ → List ℕ → EncryptedStream
  header_read s msg payload sealed rest = unsealed s 0 (header msg payload) sealed rest

  module _ (s : EncryptedStream) (msg : ℕ) (payload sealed rest : List ℕ) (hr : IsReadable s)
      (hm : msg < 2 ^ 16) (hp : length payload < 2 ^ 32) (hn : s.nonce < nonce_max)
      (hi : s.stream.inbound ≡ sealed ++ rest)
      (sealing : cipher.encrypt (nonce_bytes s.nonce) (header msg payload) ≡ some sealed) where
    header_block :
        read_block cipher s 0 22 StreamError.decrypt_message
        ≡ ok (header_read s msg payload sealed rest, 6)
    header_block =
        read_block_lem s 0 22 StreamError.decrypt_message (header msg payload) sealed rest hr hn hi
          sealing (omega (arith, length-header msg payload))
          (omega (arith, length-header msg payload))
        ∙ ap (λ n. ok (header_read s msg payload sealed rest, n)) (length-header msg payload)

    header_read-IsReadable : IsReadable (header_read s msg payload sealed rest)
    header_read-IsReadable =
        unsealed-IsReadable s 0 (header msg payload) sealed rest hr
          (omega (arith, length-header msg payload))
          (omega (
            arith,
            length-header msg payload,
            law.length-encrypt (nonce_bytes s.nonce) (header msg payload) sealed sealing,
          ))

    read_bare : payload ≡ [] → read cipher s ≡ ok (header_read s msg payload sealed rest)
    unfolding read
    read_bare p =
        rw
          (
            header_block,
            slice_size msg payload (drop (0 + length (header msg payload)) s.buffer),
            get_message_lem (header_read s msg payload sealed rest) msg payload _ hm refl,
            size_back (length payload) (omega arith),
            p,
          )
          refl

    -- A sealed header that announces more than the buffers hold makes `read` panic, whatever
    -- follows it on the wire.
    pub read_oversized :
        total_crypto_buffer_size < length payload + crypto_extension_size → read cipher s ≡ panic
    unfolding read
    read_oversized big =
        rw
          (
            header_block,
            slice_size msg payload (drop (0 + length (header msg payload)) s.buffer),
            get_message_lem (header_read s msg payload sealed rest) msg payload _ hm refl,
            size_back (length payload) hp,
            announced,
            read_block_too_long (header_read s msg payload sealed rest) 6 _
                StreamError.decrypt_payload too_long,
          )
          refl
      where
        announced : (length payload == 0) ≡ false
        announced = ground arith

        too_long : length (header_read s msg payload sealed rest).crypto_buffer < (
            if is_crc_payload msg
            then length payload + crypto_extension_size + crc_size
            else length payload + crypto_extension_size)
        too_long = ground (arith, header_read-IsReadable)

    -- The stream after the body has been read too.
    abbrev body_read : List ℕ → List ℕ → EncryptedStream
    body_read sealed' rest' =
        unsealed (header_read s msg payload sealed rest) 6 (body cipher msg payload) sealed' rest'

    read_full :
        (sealed' rest' : List ℕ)
        → length payload ≤ max_data_size
        → 0 < length payload
        → s.nonce + 1 < nonce_max
        → rest ≡ sealed' ++ rest'
        → cipher.encrypt (nonce_bytes (s.nonce + 1)) (body cipher msg payload) ≡ some sealed'
        → read cipher s ≡ ok (body_read sealed' rest')
    unfolding read
    read_full sealed' rest' max pos hn' e sealing' =
        rw
          (
            header_block,
            slice_size msg payload (drop (0 + length (header msg payload)) s.buffer),
            get_message_lem (header_read s msg payload sealed rest) msg payload _ hm refl,
            size_back (length payload) (omega arith),
            not_empty,
            body_block,
          )
          refl
      where
        not_empty : (length payload == 0) ≡ false
        not_empty = ground arith

        read_size : ℕ
        read_size =
            if is_crc_payload msg
            then length payload + crypto_extension_size + crc_size
            else length payload + crypto_extension_size

        size_eq : length (body cipher msg payload) + 16 ≡ read_size
        size_eq = ground (arith, length-body cipher msg payload)

        size_fits : 6 + length (body cipher msg payload) ≤ total_buffer_size
        size_fits = ground (arith, length-body cipher msg payload)

        body_block :
            read_block cipher
              (header_read s msg payload sealed rest)
              6
              read_size
              StreamError.decrypt_payload
            ≡ ok (body_read sealed' rest', length (body cipher msg payload))
        body_block =
            read_block_lem (header_read s msg payload sealed rest) 6 read_size
              StreamError.decrypt_payload (body cipher msg payload) sealed' rest'
              header_read-IsReadable hn' e sealing' size_eq size_fits

    body_read-Holds :
        (sealed' rest' : List ℕ) → Holds cipher msg payload (body_read sealed' rest').buffer
    body_read-Holds sealed' rest' =
        let behind =
          drop (6 + length (body cipher msg payload))
            (header_read s msg payload sealed rest).buffer in
        holds_full behind (
          ap (λ front. front ++ (body cipher msg payload ++ behind))
            (take-append_length 6 (header msg payload)
              (drop (0 + length (header msg payload)) s.buffer) (length-header msg payload)))

    body_read-IsReadable :
        (sealed' rest' : List ℕ)
        → length payload ≤ max_data_size
        → cipher.encrypt (nonce_bytes (s.nonce + 1)) (body cipher msg payload) ≡ some sealed'
        → IsReadable (body_read sealed' rest')
    body_read-IsReadable sealed' rest' max sealing' =
        unsealed-IsReadable (header_read s msg payload sealed rest) 6 (body cipher msg payload)
          sealed' rest' header_read-IsReadable (ground (arith, length-body cipher msg payload))
          (ground (
            arith,
            length-body cipher msg payload,
            law.length-encrypt (nonce_bytes (s.nonce + 1)) (body cipher msg payload) sealed'
                sealing',
          ))

  -- A frame at the front of the input is read as the message that was sent, and nothing behind it
  -- is touched.
  pub read-Frame :
      (s : EncryptedStream) (msg : ℕ) (payload rest : List ℕ) {frame : List ℕ} {nonce : ℕ}
      → IsReadable s
      → msg < 2 ^ 16
      → length payload ≤ max_data_size
      → nonce ≤ nonce_max
      → s.stream.inbound ≡ frame ++ rest
      → Frame cipher s.nonce msg payload frame nonce
      → (s' : EncryptedStream) × (read cipher s ≡ ok s')
        × IsReceived cipher s s' msg payload rest nonce
  read-Frame s msg payload rest hr hm hp hn hi (bare {sealed} p sealing) = (
    header_read s msg payload sealed rest,
    read_bare s msg payload sealed rest hr hm (omega arith) (omega arith) hi sealing p,
    record {
      outbound = refl;
      inbound = refl;
      nonce_moved = refl;
      holds = holds_bare _ p refl;
      readable =
          header_read-IsReadable s msg payload sealed rest hr hm (omega arith) (omega arith) hi
            sealing;
    },
  )
  read-Frame s msg payload rest hr hm hp hn hi (full {sealed} {sealed'} pos sealing sealing') =
      let hi' : s.stream.inbound ≡ sealed ++ (sealed' ++ rest) =
        hi ∙ append_assoc sealed sealed' rest in
      (
        body_read s msg payload sealed (sealed' ++ rest) hr hm (omega arith) (omega arith) hi'
            sealing sealed' rest,
        read_full s msg payload sealed (sealed' ++ rest) hr hm (omega arith) (omega arith) hi'
            sealing sealed' rest hp pos (omega arith) refl sealing',
        record {
          outbound = refl;
          inbound = refl;
          nonce_moved = refl;
          holds =
              body_read-Holds s msg payload sealed (sealed' ++ rest) hr hm (omega arith)
                (omega arith) hi' sealing sealed' rest;
          readable =
              body_read-IsReadable s msg payload sealed (sealed' ++ rest) hr hm (omega arith)
                (omega arith) hi' sealing sealed' rest hp sealing';
        },
      )
