-- ===== src/Sender/Rtp/Encryption.antt =====
-- The audio encryption of `encryptAudioPayload_` of src/raop_sender.cpp, as the receiver undoes it.
use airplay2_sender_cpp.Base.{
  ◌+◌, ◌≡◌, ap, ◌∙◌, true, some, Bytes, ◌++◌, length, take, drop, if◌then◌else◌,
}
use airplay2_sender_cpp.Crypto.Backend.{Backend, CipherLaws}
use airplay2_sender_cpp.Crypto.Aead.{counter_nonce8, encrypt, decrypt, decrypt-encrypt}
use airplay2_sender_cpp.Frames.{next_counter}
use airplay2_sender_cpp.Sender.State.{Sender, Ap2}
use airplay2_sender_cpp.Sender.Rtp.{sealed, encrypt_with, encrypt_audio_payload}

module _ (b : Backend) (laws : CipherLaws b) where
  -- With a key of 32 bytes, and Mbed TLS doing what it documents, an audio payload is sealed
  -- without an exception: what goes out is 16 bytes longer and carries its nonce of 8 bytes behind
  -- it, the counter moves on, and the receiver's decryption under that nonce and bytes 4 to 11 of
  -- the header gives the payload back.
  pub encrypt_audio_payload-opens :
      (header payload : Bytes) (s : Sender) (a : Ap2)
      → s.ap2 ≡ some a
      → a.encrypt_audio ≡ true
      → length a.audio_key ≡ 32
      → (ct : Bytes) × (encrypt_audio_payload b header payload s
          ≡ some (
            ct ++ counter_nonce8 a.audio_nonce,
            record s { ap2 = some (record a { audio_nonce = next_counter a.audio_nonce }) },
          ))
        × (length ct ≡ length payload + 16)
        × (decrypt b a.audio_key (counter_nonce8 a.audio_nonce) ct (take 8 (drop 4 header))
            ≡ some payload)
  unfolding encrypt_audio_payload encrypt_with sealed
  encrypt_audio_payload-opens header payload s a e on size =
      let aad = take 8 (drop 4 header) in
      let (ct, enc, len, dec) =
        decrypt-encrypt b laws a.audio_key (counter_nonce8 a.audio_nonce) payload aad size in
      (ct, ap (encrypt_with b header payload s) e ∙ go ct enc, len, dec)
    where
      go :
          (ct : Bytes)
          → encrypt b a.audio_key (counter_nonce8 a.audio_nonce) payload (take 8 (drop 4 header))
            ≡ some ct
          → encrypt_with b header payload s (some a)
            ≡ some (
              ct ++ counter_nonce8 a.audio_nonce,
              record s { ap2 = some (record a { audio_nonce = next_counter a.audio_nonce }) },
            )
      go ct enc =
          ap
            (λ c.
              if c
              then sealed b s a (
                  encrypt b a.audio_key (counter_nonce8 a.audio_nonce) payload
                    (take 8 (drop 4 header)))
              else some (payload, s))
            on
          ∙ ap (sealed b s a) enc
