-- ===== src/Stream/Samples.antt =====
-- A toy cipher for src/encrypted_stream.rs, and streams that nothing was sent on.
use transmitic_core.Common.{
  ℕ, ◌%◌, ◌^◌, ◌≡◌, refl, sym, ap, ◌∙◌, false, some, List, [], ◌++◌, length, zeros, drop,
  length-zeros, length-append, drop-append_length, arith,
}
use transmitic_core.Stream.Consts.{total_buffer_size, total_crypto_buffer_size}
use transmitic_core.Stream.Sealing.{Cipher, IsSealing}
use transmitic_core.Stream.Sending.{IsWritable}
use transmitic_core.Stream.Receiving.{IsReadable}
use transmitic_core.Stream.{Socket, EncryptedStream, new}

-- The tag in front of the text is 16 zeros, whatever the nonce.
abbrev pub toy : Cipher
toy = record {
  encrypt = λ nonce text. some (zeros 16 ++ text);
  decrypt = λ nonce text. some (drop 16 text);
  hash = λ text. length text % 2 ^ 32;
}

pub toy-IsSealing : IsSealing toy
toy-IsSealing = record {
  encrypt_total = λ nonce text h. (zeros 16 ++ text, refl);
  length-encrypt =
      λ nonce text sealed e. ground (arith, length-append (zeros 16) text, length-zeros 16);
  decrypt-encrypt = λ nonce text sealed e. decrypts text sealed e;
  hash-lt = λ text. omega arith;
}
  where
    decrypts :
        (text sealed : List ℕ)
        → some (zeros 16 ++ text) ≡ some sealed
        → some (drop 16 sealed) ≡ some text
    decrypts text sealed e =
        let same : zeros 16 ++ text ≡ sealed = cc in
        ap (λ c. some (drop 16 c)) (sym same)
        ∙ ap some (drop-append_length 16 (zeros 16) text (length-zeros 16))

abbrev pub idle : Socket
idle = record { inbound = []; outbound = []; broken = false }

abbrev pub sender : EncryptedStream
sender = new idle

pub sender-IsWritable : IsWritable sender
unfolding new
sender-IsWritable = (length-zeros total_buffer_size, refl)

pub new-IsReadable : (socket : Socket) → IsReadable (new socket)
unfolding new
new-IsReadable socket = (length-zeros total_buffer_size, length-zeros total_crypto_buffer_size)
