-- ===== src/Sender/Pairing/Keys/Strict.antt =====
-- Strict receiver authentication of `handlePairVerifyM2_` of src/raop_sender.cpp fails closed.
use airplay2_sender_cpp.Base.{
  ◌>>=◌, ◌++◌, ◌∙◌, refl, if◌then◌else◌, arith, sym, subst, ◌≡◌, Bool, true, false, not, ◌&&◌, [],
  Bytes, Option, none, some, if-split, if-both, codes,
}
use airplay2_sender_cpp.Crypto.Backend.{Backend}
use airplay2_sender_cpp.Crypto.Aead.{decrypt, hkdf}
use airplay2_sender_cpp.Crypto.Curves.{ed25519_verify, x25519_shared_secret}
use airplay2_sender_cpp.Tlv.{Items, get}
use airplay2_sender_cpp.Tlv
use airplay2_sender_cpp.Tlv.Tag
use airplay2_sender_cpp.Sender.State.{Sender, Ap2}
use airplay2_sender_cpp.Sender.Request.{is_empty}
use airplay2_sender_cpp.Sender.Lifecycle.Closing.{IsClosed, fail-IsClosed}
use airplay2_sender_cpp.Sender.Ap2Setup.{with_ap2}
use airplay2_sender_cpp.Sender.Pairing.Setup.{with_error}
use airplay2_sender_cpp.Sender.Pairing.Keys.{
  signed, v2_sub, v2_opened, v2_shared, v2_parts, v2_error, handle_pair_verify_m2,
}

guarded : (x y : Bool) → x ≡ false → y ≡ true → (not x && y) ≡ false → ⊥
guarded x y h k e = ground arith

module _ (b : Backend) where
  -- The key under which the receiver seals its half of pair-verify.
  verify_key : Ap2 → Bytes → Bytes
  verify_key a session_pub =
      hkdf b (codes "Pair-Verify-Encrypt-Salt") (codes "Pair-Verify-Encrypt-Info")
        (x25519_shared_secret b a.verify_priv session_pub)

  -- What the receiver claims: its key for the session, its id, and its signature.
  abbrev Claim : Type 0
  Claim = Bytes × Bytes × Bytes

  claimed_in : Bytes → Option Bytes → Option Bytes → Option Claim
  claimed_in session_pub atv_id sig = do i ← atv_id; g ← sig; some (session_pub, i, g)

  claimed_by : Bytes → Option Bytes → Option Claim
  unfolding claimed_in
  claimed_by session_pub opened = do
    text ← opened
    let sub = Tlv.decode text
    claimed_in session_pub (get sub Tag.identifier) (get sub Tag.signature)

  claimed : Ap2 → Option Bytes → Option Bytes → Option Claim
  unfolding claimed_by verify_key
  claimed a public_key sealed = do
    session_pub ← public_key
    ct ← sealed
    claimed_by session_pub (decrypt b (verify_key a session_pub) (codes "PV-Msg02") ct [])

  -- Whether a claim is signed with the long-term key that pairing has stored: over both keys of the
  -- session and the id.
  proves : Ap2 → Option Claim → Bool
  proves a none = false
  proves a (some (session_pub, atv_id, sig)) =
      not (is_empty a.accessory_ltpk)
      && ed25519_verify b a.accessory_ltpk (session_pub ++ (atv_id ++ a.verify_pub)) sig

  -- Whether a reply to pair-verify proves that it comes from the receiver that was paired.
  unfoldable pub is_genuine : Ap2 → Bytes → Bool
  unfolding claimed proves
  is_genuine a body =
      let m = Tlv.decode body in
      proves a (claimed a (get m Tag.public_key) (get m Tag.encrypted_data))

  if_not : (e v : Bool) → (if e then false else v) ≡ (not e && v)
  if_not true v = refl
  if_not false v = refl

  signed-proves :
      (a : Ap2) (session_pub atv_id sig : Bytes)
      → signed b a session_pub atv_id sig ≡ proves a (some (session_pub, atv_id, sig))
  unfolding signed proves
  signed-proves a session_pub atv_id sig = if_not (is_empty a.accessory_ltpk) _

  v2_sub-strict :
      (s : Sender) (a : Ap2) (key session_pub : Bytes) (atv_id sig : Option Bytes)
      → s.config.strict_auth ≡ true
      → proves a (claimed_in session_pub atv_id sig) ≡ false
      → IsClosed s (v2_sub b s a key session_pub atv_id sig)
  unfolding v2_sub claimed_in
  v2_sub-strict s a key session_pub none sig h u =
      fail-IsClosed (codes "Pair-verify was missing the device signature") (with_ap2 a s)
  v2_sub-strict s a key session_pub (some atv_id) none h u =
      fail-IsClosed (codes "Pair-verify was missing the device signature") (with_ap2 a s)
  v2_sub-strict s a key session_pub (some atv_id) (some sig) h u =
      if-split (IsClosed s) (not (signed b a session_pub atv_id sig) && s.config.strict_auth) _ _
        (λ e.
          fail-IsClosed
            (codes "The device's pair-verify signature did not verify (receiver not authenticated)")
            (with_ap2 a s))
        (λ e. absurd (guarded _ _ (signed-proves a session_pub atv_id sig ∙ u) h e))

  v2_opened-strict :
      (s : Sender) (a : Ap2) (key session_pub : Bytes) (dec : Option Bytes)
      → s.config.strict_auth ≡ true
      → proves a (claimed_by session_pub dec) ≡ false
      → IsClosed s (v2_opened b s a key session_pub dec)
  unfolding v2_opened claimed_by
  v2_opened-strict s a key session_pub none h u =
      fail-IsClosed (codes "Pair-verify could not be decrypted") (with_ap2 a s)
  v2_opened-strict s a key session_pub (some dec) h u =
      v2_sub-strict s a key session_pub (get (Tlv.decode dec) Tag.identifier)
        (get (Tlv.decode dec) Tag.signature) h u

  v2_shared-strict :
      (s : Sender) (a : Ap2) (session_pub ct : Bytes)
      → s.config.strict_auth ≡ true
      → proves a (claimed a (some session_pub) (some ct)) ≡ false
      → IsClosed s (v2_shared b s (some a) session_pub ct)
  unfolding v2_shared claimed verify_key proves
  v2_shared-strict s a session_pub ct h u =
      let secret = x25519_shared_secret b a.verify_priv session_pub in
      let a' = record a { shared_secret = secret } in
      if-both (IsClosed s) (is_empty secret) _ _
        (fail-IsClosed (codes "Pair-verify shared-secret derivation failed") (with_ap2 a' s))
        (v2_opened-strict s a' (verify_key a session_pub) session_pub
          (decrypt b (verify_key a session_pub) (codes "PV-Msg02") ct []) h u)

  v2_parts-strict :
      (s : Sender) (a : Ap2) (session_pub ct : Option Bytes)
      → s.ap2 ≡ some a
      → s.config.strict_auth ≡ true
      → proves a (claimed a session_pub ct) ≡ false
      → IsClosed s (v2_parts b s session_pub ct)
  unfolding v2_parts
  v2_parts-strict s a none ct e h u = fail-IsClosed (codes "Pair-verify response incomplete") s
  v2_parts-strict s a (some session_pub) none e h u =
      fail-IsClosed (codes "Pair-verify response incomplete") s
  v2_parts-strict s a (some session_pub) (some ct) e h u =
      subst (λ o. IsClosed s (v2_shared b s o session_pub ct)) (sym e)
        (v2_shared-strict s a session_pub ct h u)

  v2_error-strict :
      (m : Items) (s : Sender) (a : Ap2) (err : Option Bytes)
      → s.ap2 ≡ some a
      → s.config.strict_auth ≡ true
      → proves a (claimed a (get m Tag.public_key) (get m Tag.encrypted_data)) ≡ false
      → IsClosed s (v2_error b m s err)
  unfolding v2_error
  v2_error-strict m s a none e h u =
      v2_parts-strict s a (get m Tag.public_key) (get m Tag.encrypted_data) e h u
  v2_error-strict m s a (some err) e h u =
      fail-IsClosed (with_error (codes "Pair-verify rejected") err) s

  -- In strict mode a reply to pair-verify that is not genuine fails the session, closing every socket
  -- and stopping every timer. A reply is genuine if it holds a key for the session, and under the
  -- key that both then share an id and a signature of that key, the id and our own key, which
  -- Ed25519 verifies under the long-term key stored in pairing, and one is stored.
  pub handle_pair_verify_m2-strict :
      (body : Bytes) (s : Sender) (a : Ap2)
      → s.ap2 ≡ some a
      → s.config.strict_auth ≡ true
      → is_genuine a body ≡ false
      → IsClosed s (handle_pair_verify_m2 b body s)
  unfolding handle_pair_verify_m2 is_genuine
  handle_pair_verify_m2-strict body s a e h u =
      v2_error-strict (Tlv.decode body) s a (get (Tlv.decode body) Tag.error) e h u
