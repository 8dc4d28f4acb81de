-- ===== src/Crypto/Samples.antt =====
-- A back end to run the model with: a cipher that hides nothing and a constant hash. It meets the
-- laws that Mbed TLS documents.
use airplay2_sender_cpp.Base.{bytes_eq, if◌then◌else◌, none, ◌^◌, ◌%◌, refl, true, some, replicate}
use airplay2_sender_cpp.Crypto.Backend.{Backend, CipherLaws}

abbrev pub sample_backend : Backend
sample_backend = record {
  sha512 = λ m. replicate 64 1;
  hkdf_sha512 = λ ikm salt info n. replicate n 2;
  md5 = λ m. replicate 16 3;
  random = λ draw n. replicate n 4;
  seal = λ key nonce aad text. (text, replicate 16 0);
  unseal = λ key nonce aad ct tag. some ct;
  x25519_base = λ priv. replicate 32 5;
  x25519_scalarmult = λ priv their_pub. replicate 32 6;
  ed25519_public = λ seed. replicate 32 7;
  ed25519_private = λ seed. replicate 64 8;
  ed25519_sign = λ msg pub_key priv_key. replicate 64 9;
  ed25519_verify = λ sig msg pub_key. true;
  exp_mod = λ x e n. x ^ e % n;
}

pub sample_laws : CipherLaws sample_backend
sample_laws = record {
  length-tag = λ key nonce aad text. refl;
  length-text = λ key nonce aad text. refl;
  unseal-seal = λ key nonce aad text. refl;
}

-- A back end that refuses a tag other than the one of `seal`.
abbrev pub checking_backend : Backend
checking_backend = record sample_backend {
  unseal = λ key nonce aad ct tag. if bytes_eq tag (replicate 16 0) then some ct else none;
}

pub checking_laws : CipherLaws checking_backend
unfolding bytes_eq
checking_laws = record {
  length-tag = λ key nonce aad text. refl;
  length-text = λ key nonce aad text. refl;
  unseal-seal = λ key nonce aad text. refl;
}

-- A back end with one signature that verifies, the one that `ed25519_sign` makes.
abbrev pub signing_backend : Backend
signing_backend = record sample_backend {
  ed25519_verify = λ sig msg pub_key. bytes_eq sig (replicate 64 9);
}
