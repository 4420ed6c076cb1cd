-- ===== src/Stream/Sessions.antt =====
-- Sequences of messages between the two ends of a connection of src/encrypted_stream.rs.
use transmitic_core.Common.{
  ℕ, zero, suc, ◌+◌, ◌*◌, ◌^◌, ◌<◌, ◌≤◌, ◌≡◌, refl, ap, sym, subst, ◌∙◌, List, [], ◌∷◌, ◌++◌, All,
  length, length-append, arith, append_assoc, append-nil, Outcome, ok, ◌>>=◌, append_cancel_left,
}
use transmitic_core.Stream.Consts.{max_data_size, total_buffer_size, nonce_max}
use transmitic_core.Stream.Sealing.{Cipher, IsSealing}
use transmitic_core.Stream.Frames.{header, length-header, body, length-body, Frame, bare, full}
use transmitic_core.Stream.Sending.{IsWritable, write-Frame}
use transmitic_core.Stream.Receiving.{IsReadable, read-Frame}
use transmitic_core.Stream.Payload.{get_message-Holds, get_payload-Holds}
use transmitic_core.Stream.{
  EncryptedStream, StreamError, write, read, get_message, get_payload, nonce_bytes,
}

-- A message type and a payload.
abbrev pub Message : Type 0
Message = ℕ × List ℕ

abbrev pub IsMessage : Message → Type 0
IsMessage m = (m.0 < 2 ^ 16) × (length (m.1) ≤ max_data_size)

module _ (cipher : Cipher) where
  -- A run of `write` calls on one end.
  unfoldable pub send_all : EncryptedStream → List Message → Outcome StreamError EncryptedStream
  send_all s [] = ok s
  send_all s (m ∷ ms) = write cipher s (m.0) (m.1) >>= λ s'. send_all s' ms

  -- As many rounds of `read`, `get_message` and `get_payload` on the other.
  unfoldable pub receive_all :
      EncryptedStream → ℕ → Outcome StreamError (List Message × EncryptedStream)
  receive_all r zero = ok ([], r)
  receive_all r (suc n) = do
    r' ← read cipher r
    msg ← get_message r'
    payload ← get_payload cipher r'
    (ms, r'') ← receive_all r' n
    ok ((msg, payload) ∷ ms, r'')

data Frames (cipher : Cipher) : ℕ → List Message → List ℕ → ℕ → Type 0 where
  done : {nonce : ℕ} → Frames cipher nonce [] [] nonce
  more :
      {nonce nonce' nonce'' : ℕ} {m : Message} {ms : List Message} {frame wire : List ℕ}
      → Frame cipher nonce (m.0) (m.1) frame nonce'
      → Frames cipher nonce' ms wire nonce''
      → Frames cipher nonce (m ∷ ms) (frame ++ wire) nonce''

body_fits :
    (cipher : Cipher) (msg : ℕ) (payload : List ℕ)
    → length payload ≤ max_data_size
    → length (body cipher msg payload) ≤ total_buffer_size
body_fits cipher msg payload h = ground (arith, length-body cipher msg payload)

module _ {cipher : Cipher} where
  Frames-le :
      {nonce nonce' : ℕ} {ms : List Message} {wire : List ℕ}
      → Frames cipher nonce ms wire nonce'
      → nonce ≤ nonce'
  Frames-le done = omega arith
  Frames-le (more (bare p e) fs) = omega (arith, Frames-le fs)
  Frames-le (more (full p e e') fs) = omega (arith, Frames-le fs)

  send_all-Frames :
      (s : EncryptedStream) {n : ℕ} {ms : List Message} {wire : List ℕ} {nonce : ℕ}
      → IsWritable s
      → All IsMessage ms
      → nonce ≤ nonce_max
      → s.nonce ≡ n
      → Frames cipher n ms wire nonce
      → (s' : EncryptedStream) × (send_all cipher s ms ≡ ok s')
        × (s'.stream.outbound ≡ s.stream.outbound ++ wire)
        × (s'.nonce ≡ nonce)
  unfolding send_all
  send_all-Frames s hw hm hn e done = (s, refl, sym (append-nil s.stream.outbound), e)
  send_all-Frames s {ms = m ∷ ms} hw hm hn e (more {nonce' = k} {frame} {wire} f fs) =
      let f' = subst (λ j. Frame cipher j (m.0) (m.1) frame k) (sym e) f in
      let (s1, w, sent) =
        write-Frame cipher s (m.0) (m.1) hw (hm.0.1) (omega (arith, Frames-le fs)) f' in
      let (s2, rest, out, nonce_eq) =
        send_all-Frames s1 sent.writable hm.1 hn sent.nonce_moved fs in
      (
        s2,
        rw w rest,
        out ∙ rw (sent.outbound) (append_assoc s.stream.outbound frame wire),
        nonce_eq,
      )

  receive_all-Frames :
      (law : IsSealing cipher) (r : EncryptedStream) {n : ℕ} {ms : List Message} {wire : List ℕ}
      {nonce : ℕ} (rest : List ℕ)
      → IsReadable r
      → All IsMessage ms
      → nonce ≤ nonce_max
      → r.nonce ≡ n
      → r.stream.inbound ≡ wire ++ rest
      → Frames cipher n ms wire nonce
      → (r' : EncryptedStream) × (receive_all cipher r (length ms) ≡ ok (ms, r'))
        × (r'.stream.inbound ≡ rest)
        × (r'.nonce ≡ nonce)
  unfolding receive_all
  receive_all-Frames law r rest hr hm hn e hi done = (r, refl, hi, e)
  receive_all-Frames law r {ms = m ∷ ms} rest hr hm hn e hi
        (more {nonce' = k} {frame} {wire} f fs) =
      let f' = subst (λ j. Frame cipher j (m.0) (m.1) frame k) (sym e) f in
      let (r1, w, got) =
        read-Frame cipher law r (m.0) (m.1) (wire ++ rest) hr (hm.0.0) (hm.0.1)
          (omega (arith, Frames-le fs)) (hi ∙ append_assoc frame wire rest) f' in
      let (r2, later, in_eq, nonce_eq) =
        receive_all-Frames law r1 rest got.readable hm.1 hn got.nonce_moved got.inbound fs in
      (
        r2,
        rw
            (
              w,
              get_message-Holds cipher r1 (m.0) (m.1) (hm.0.0) got.holds,
              get_payload-Holds cipher law r1 (m.0) (m.1) (hm.0.0) (hm.0.1) got.holds,
              later,
            )
            refl,
        in_eq,
        nonce_eq,
      )

  Frame-exists :
      (law : IsSealing cipher) (nonce : ℕ) (m : Message)
      → IsMessage m
      → (frame : List ℕ) × (nonce' : ℕ) × Frame cipher nonce (m.0) (m.1) frame nonce'
        × (nonce' ≤ nonce + 2)
  Frame-exists law nonce (msg, []) h =
      let (sealed, e) =
        law.encrypt_total (nonce_bytes nonce) (header msg [])
          (omega (arith, length-header msg [])) in
      (sealed, nonce + 1, bare refl e, omega arith)
  Frame-exists law nonce (msg, p ∷ ps) h =
      let (sealed, e) =
        law.encrypt_total (nonce_bytes nonce) (header msg (p ∷ ps))
          (omega (arith, length-header msg (p ∷ ps))) in
      let (sealed', e') =
        law.encrypt_total (nonce_bytes (nonce + 1)) (body cipher msg (p ∷ ps))
          (body_fits cipher msg (p ∷ ps) h.1) in
      (sealed ++ sealed', nonce + 1 + 1, full (omega arith) e e', omega arith)

  Frames-exist :
      (law : IsSealing cipher) (nonce : ℕ) (ms : List Message)
      → All IsMessage ms
      → (wire : List ℕ) × (nonce' : ℕ) × Frames cipher nonce ms wire nonce'
        × (nonce' ≤ nonce + 2 * length ms)
  Frames-exist law nonce [] h = ([], nonce, done, omega arith)
  Frames-exist law nonce (m ∷ ms) h =
      let (frame, k, f, le) = Frame-exists law nonce m h.0 in
      let (wire, k', fs, le') = Frames-exist law k ms h.1 in
      (frame ++ wire, k', more f fs, omega arith)

  length-Frame :
      (law : IsSealing cipher) {nonce nonce' msg : ℕ} {payload frame : List ℕ}
      → Frame cipher nonce msg payload frame nonce'
      → 1 ≤ length frame
  length-Frame law (bare e sealing) = omega (arith, law.length-encrypt _ _ _ sealing)
  length-Frame law (full {sealed} {sealed'} pos sealing sealing') =
      omega (arith, law.length-encrypt _ _ _ sealing, length-append sealed sealed')

  length-Frames :
      (law : IsSealing cipher) {nonce nonce' : ℕ} {ms : List Message} {wire : List ℕ}
      → Frames cipher nonce ms wire nonce'
      → length ms ≤ length wire
  length-Frames law done = omega arith
  length-Frames law (more {frame} {wire} f fs) =
      omega (arith, length-Frame law f, length-Frames law fs, length-append frame wire)

module _ (cipher : Cipher) (law : IsSealing cipher) where
  -- With buffers of the right size, a socket that can be written and nonces to spare, every
  -- sequence of messages of 16-bit types and payloads within the limit is sent without an
  -- error: the nonce does not fall and grows by two a message at most.
  pub send_all_total :
      (s : EncryptedStream) (ms : List Message)
      → IsWritable s
      → All IsMessage ms
      → s.nonce + 2 * length ms ≤ nonce_max
      → (s' : EncryptedStream) × (send_all cipher s ms ≡ ok s')
        × (s.nonce ≤ s'.nonce)
        × (s'.nonce ≤ s.nonce + 2 * length ms)
  send_all_total s ms hw hm hn =
      let (wire, k, fs, le) = Frames-exist law s.nonce ms hm in
      let (s', sent, out, nonce_eq) = send_all-Frames s hw hm (omega arith) refl fs in
      (s', sent, omega (arith, Frames-le fs), omega arith)

  -- What was sent is received: where the other end holds the same key and the same nonce and
  -- finds the bytes written by a run of `write` calls at the front of its input, as many
  -- rounds of `read`, `get_message` and `get_payload` return the same messages in the same
  -- order. They leave the input behind them alone, and both ends agree on the nonce again.
  pub receive_all-send_all :
      (s s' r : EncryptedStream) (ms : List Message) (wire rest : List ℕ)
      → IsWritable s
      → IsReadable r
      → All IsMessage ms
      → s.nonce + 2 * length ms ≤ nonce_max
      → send_all cipher s ms ≡ ok s'
      → s'.stream.outbound ≡ s.stream.outbound ++ wire
      → r.nonce ≡ s.nonce
      → r.stream.inbound ≡ wire ++ rest
      → (r' : EncryptedStream) × (receive_all cipher r (length ms) ≡ ok (ms, r'))
        × (r'.stream.inbound ≡ rest)
        × (r'.nonce ≡ s'.nonce)
  receive_all-send_all s s' r ms wire rest hw hr hm hn sent out same hi =
      let (frames, k, fs, le) = Frames-exist law s.nonce ms hm in
      let (s1, sent1, out1, nonce1) = send_all-Frames s hw hm (omega arith) refl fs in
      let s_eq : s1 ≡ s' = cc in
      let wire_eq : frames ≡ wire =
        append_cancel_left s.stream.outbound frames wire
          (sym out1 ∙ ap (λ t. t.stream.outbound) s_eq ∙ out) in
      let (r', got, in_eq, nonce2) =
        receive_all-Frames law r rest hr hm (omega arith) same
          (hi ∙ ap (λ w. w ++ rest) (sym wire_eq)) fs in
      (r', got, in_eq, nonce2 ∙ sym nonce1 ∙ ap (λ t. t.nonce) s_eq)

  -- Every message takes a byte on the wire at least.
  pub length-wire :
      (s s' : EncryptedStream) (ms : List Message) (wire : List ℕ)
      → IsWritable s
      → All IsMessage ms
      → s.nonce + 2 * length ms ≤ nonce_max
      → send_all cipher s ms ≡ ok s'
      → s'.stream.outbound ≡ s.stream.outbound ++ wire
      → length ms ≤ length wire
  length-wire s s' ms wire hw hm hn sent out =
      let (frames, k, fs, le) = Frames-exist law s.nonce ms hm in
      let (s1, sent1, out1, nonce1) = send_all-Frames s hw hm (omega arith) refl fs in
      let s_eq : s1 ≡ s' = cc in
      let wire_eq : frames ≡ wire =
        append_cancel_left s.stream.outbound frames wire
          (sym out1 ∙ ap (λ t. t.stream.outbound) s_eq ∙ out) in
      subst (λ w. length ms ≤ length w) wire_eq (length-Frames law fs)
