-- ===== src/Crypto/Backend.antt =====
-- The functions of Mbed TLS 3.6 and of third_party/ed25519 that src/airplay_crypto.cpp calls. The
-- random bytes are a sequence of draws, so that a draw is named by its number.
use airplay2_sender_cpp.Base.{ℕ, ◌≡◌, Bool, Option, some, Bytes, length}

pub record Backend : Type 0 where
  pub sha512 : Bytes → Bytes
  -- key, salt, info, length
  pub hkdf_sha512 : Bytes → Bytes → Bytes → ℕ → Bytes
  pub md5 : Bytes → Bytes
  -- draw, number of bytes
  pub random : ℕ → ℕ → Bytes
  -- `mbedtls_chachapoly_encrypt_and_tag`: key, nonce, associated data, plain text
  pub seal : Bytes → Bytes → Bytes → Bytes → Bytes × Bytes
  -- `mbedtls_chachapoly_auth_decrypt`: key, nonce, associated data, cipher text, tag
  pub unseal : Bytes → Bytes → Bytes → Bytes → Bytes → Option Bytes
  pub x25519_base : Bytes → Bytes
  -- our scalar, their point
  pub x25519_scalarmult : Bytes → Bytes → Bytes
  -- the public and the private half of `ed25519_create_keypair`
  pub ed25519_public : Bytes → Bytes
  pub ed25519_private : Bytes → Bytes
  -- message, public key, private key
  pub ed25519_sign : Bytes → Bytes → Bytes → Bytes
  -- signature, message, public key
  pub ed25519_verify : Bytes → Bytes → Bytes → Bool
  -- `mbedtls_mpi_exp_mod`: base, exponent, modulus
  pub exp_mod : ℕ → ℕ → ℕ → ℕ

-- What Mbed TLS documents of the cipher: the tag has 16 bytes, the cipher text is as long as the
-- plain text, and what was sealed is opened under the same key, nonce and associated data.
pub record CipherLaws (b : Backend) : Type 0 where
  pub length-tag : (key nonce aad text : Bytes) → length (b.seal key nonce aad text).1 ≡ 16
  pub length-text :
      (key nonce aad text : Bytes) → length (b.seal key nonce aad text).0 ≡ length text
  pub unseal-seal :
      (key nonce aad text : Bytes)
      → b.unseal key nonce aad (b.seal key nonce aad text).0 (b.seal key nonce aad text).1
        ≡ some text
