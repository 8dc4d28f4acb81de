-- ===== src/Crypto/Aead.antt =====
-- The ChaCha20-Poly1305 wrappers of src/airplay_crypto.cpp.
use airplay2_sender_cpp.Base.{
  ap₂, ℕ, ◌+◌, ◌-◌, ◌≡◌, ap, ◌∙◌, ◌||◌, ◌++◌, Option, none, some, Bytes, length, take, drop,
  replicate, ltb, ◌==◌, if◌then◌else◌, not, arith, le_bytes, length-append, take-length_append,
  drop-length_append, min,
}
use airplay2_sender_cpp.Crypto.Backend.{Backend, CipherLaws}

-- `counterNonce8`, and the same loop wherever the sender builds a nonce from a counter.
unfoldable pub counter_nonce8 : ℕ → Bytes
counter_nonce8 counter = le_bytes 8 counter

-- Up to eight bytes of the nonce behind four zeros, in a buffer of twelve.
unfoldable pub pad12 : Bytes → Bytes
pad12 nonce8 =
    let n = min 8 (length nonce8) in replicate 4 0 ++ (take n nonce8 ++ replicate (8 - n) 0)

module _ (b : Backend) where
  -- `chacha20Poly1305Encrypt`; `none` is the exception for a key that has not 32 bytes.
  unfoldable pub encrypt : Bytes → Bytes → Bytes → Bytes → Option Bytes
  unfolding pad12
  encrypt key nonce8 plaintext aad =
      let sealed = b.seal key (pad12 nonce8) aad plaintext in
      if not (length key == 32) then none else some (sealed.0 ++ sealed.1)

  -- `chacha20Poly1305Decrypt`
  unfoldable pub decrypt : Bytes → Bytes → Bytes → Bytes → Option Bytes
  unfolding pad12
  decrypt key nonce8 ct aad =
      let plen = length ct - 16 in
      let opened = b.unseal key (pad12 nonce8) aad (take plen ct) (drop plen ct) in
      if ltb (length ct) 16 || not (length key == 32) then none else opened

  -- `hkdfSha512` with the default length.
  unfoldable pub hkdf : Bytes → Bytes → Bytes → Bytes
  hkdf salt info ikm = b.hkdf_sha512 ikm salt info 32

  module _ (laws : CipherLaws b) where
    -- Under a key of 32 bytes encryption succeeds, adds 16 bytes, and is undone by decryption with
    -- the same nonce and associated data.
    pub decrypt-encrypt :
        (key nonce text aad : Bytes)
        → length key ≡ 32
        → (ct : Bytes) × (encrypt key nonce text aad ≡ some ct)
          × (length ct ≡ length text + 16)
          × (decrypt key nonce ct aad ≡ some text)
    unfolding encrypt decrypt
    decrypt-encrypt key nonce text aad h = (ct, ground arith, size, opened)
      where
        sealed : Bytes × Bytes
        sealed = b.seal key (pad12 nonce) aad text

        ct : Bytes
        ct = sealed.0 ++ sealed.1

        size : length ct ≡ length text + 16
        size = omega (
          arith,
          length-append sealed.0 sealed.1,
          laws.length-tag key (pad12 nonce) aad text,
          laws.length-text key (pad12 nonce) aad text,
        )

        plen : length ct - 16 ≡ length sealed.0
        plen = omega (arith, size, laws.length-text key (pad12 nonce) aad text)

        raw :
            b.unseal key (pad12 nonce) aad (take (length ct - 16) ct) (drop (length ct - 16) ct)
            ≡ some text
        raw =
            ap (λ n. b.unseal key (pad12 nonce) aad (take n ct) (drop n ct)) plen
            ∙ (ap₂ (b.unseal key (pad12 nonce) aad) (take-length_append sealed.0 sealed.1)
                  (drop-length_append sealed.0 sealed.1)
                ∙ laws.unseal-seal key (pad12 nonce) aad text)

        opened : decrypt key nonce ct aad ≡ some text
        opened = ground (arith, raw, size)
