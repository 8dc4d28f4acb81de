-- ===== src/Crypto/Curves.antt =====
-- The X25519 and Ed25519 wrappers and the RFC 2617 digest of src/airplay_crypto.cpp.
use airplay2_sender_cpp.Base.{
  ℕ, Bool, false, not, ◌||◌, [], ◌∷◌, ◌++◌, Bytes, codes, length, get_or, set, bit_and, bit_or,
  ◌==◌, if◌then◌else◌,
}
use airplay2_sender_cpp.Crypto.Backend.{Backend}
use airplay2_sender_cpp.Creds.Hex.{hex_encode}

or_all : ℕ → Bytes → ℕ
or_all acc [] = acc
or_all acc (x ∷ xs) = or_all (bit_or acc x) xs

-- The clamping of `x25519Generate`.
unfoldable pub clamp : Bytes → Bytes
clamp priv =
    let low = set priv 0 (bit_and (get_or priv 0 0) 248) in
    let high = set low 31 (bit_and (get_or low 31 0) 127) in
    set high 31 (bit_or (get_or high 31 0) 64)

module _ (b : Backend) where
  -- `x25519Generate` with the random bytes of a draw: the public and the private half.
  unfoldable pub x25519_generate : ℕ → Bytes × Bytes
  unfolding clamp
  x25519_generate draw = let priv = clamp (b.random draw 32) in (b.x25519_base priv, priv)

  -- `x25519SharedSecret`: empty for a key of the wrong size and for the all-zero secret.
  unfoldable pub x25519_shared_secret : Bytes → Bytes → Bytes
  unfolding or_all
  x25519_shared_secret priv their_pub =
      let out = b.x25519_scalarmult priv their_pub in
      if not (length priv == 32) || not (length their_pub == 32)
      then []
      else if or_all 0 out == 0
      then []
      else out

  unfoldable pub ed25519_public_from_seed : Bytes → Bytes
  ed25519_public_from_seed seed = b.ed25519_public seed

  unfoldable pub ed25519_sign : Bytes → Bytes → Bytes
  ed25519_sign seed msg = b.ed25519_sign msg (b.ed25519_public seed) (b.ed25519_private seed)

  unfoldable pub ed25519_verify : Bytes → Bytes → Bytes → Bool
  ed25519_verify pub32 msg sig =
      if not (length pub32 == 32) || not (length sig == 64)
      then false
      else b.ed25519_verify sig msg pub32

  -- `md5Hex`
  unfoldable pub md5_hex : Bytes → Bytes
  md5_hex s = hex_encode (b.md5 s)

  -- `digestAuthResponse`
  unfoldable pub digest_auth_response : Bytes → Bytes → Bytes → Bytes → Bytes → Bytes → Bytes
  unfolding md5_hex
  digest_auth_response method uri username realm password nonce =
      let ha1 = md5_hex (username ++ (codes ":" ++ (realm ++ (codes ":" ++ password)))) in
      let ha2 = md5_hex (method ++ (codes ":" ++ uri)) in
      let resp = md5_hex (ha1 ++ (codes ":" ++ (nonce ++ (codes ":" ++ ha2)))) in
      codes "Digest username=\""
      ++ (username
          ++ (codes "\", realm=\""
              ++ (realm
                  ++ (codes "\", nonce=\""
                      ++ (nonce
                          ++ (codes "\", uri=\""
                              ++ (uri ++ (codes "\", response=\"" ++ (resp ++ codes "\"")))))))))
