-- ===== src/Sender/Pairing/Verify/Invariant.antt =====
-- `handlePairSetupM4_`, `sendPairSetupM5_` and `sendPairVerifyM1_` of src/raop_sender.cpp keep the
-- invariant.
use airplay2_sender_cpp.Base.{
  suc, false, not, ◌&&◌, [], ◌∷◌, Option, none, some, Bytes, codes, if-both,
}
use airplay2_sender_cpp.Crypto.Backend.{Backend}
use airplay2_sender_cpp.Crypto.Aead.{hkdf, encrypt}
use airplay2_sender_cpp.Crypto.Curves.{x25519_generate}
use airplay2_sender_cpp.Crypto.Srp.{SrpClient}
use airplay2_sender_cpp.Tlv.{Items, get}
use airplay2_sender_cpp.Tlv
use airplay2_sender_cpp.Tlv.Tag
use airplay2_sender_cpp.Sender.Auth.{is_transient}
use airplay2_sender_cpp.Sender.Stage.{PairStage}
use airplay2_sender_cpp.Sender.State.{Sender, Ap2}
use airplay2_sender_cpp.Sender.Request.{is_empty}
use airplay2_sender_cpp.Sender.Invariant.{Inv, same-Inv}
use airplay2_sender_cpp.Sender.Lifecycle.Invariant.{fail-Inv}
use airplay2_sender_cpp.Sender.Ap2Setup.{at_stage, with_ap2}
use airplay2_sender_cpp.Sender.Pairing.Setup.{octets, with_error}
use airplay2_sender_cpp.Sender.Pairing.Setup.Invariant.{http_post-Inv, after_auth_ok-Inv}
use airplay2_sender_cpp.Sender.Pairing.Verify.{
  is_some, control_keys, verify_m1_with, send_pair_verify_m1, with_seed, with_id, with_identity,
  m5_sent, m5_items, m5_with, refused_proof, proven, m4_with, m4_ap2, m4_proof, m4_error,
  handle_pair_setup_m4,
}

module _ (b : Backend) where
  verify_m1_with-Inv : (s : Sender) (o : Option Ap2) → Inv s → Inv (verify_m1_with b s o)
  unfolding verify_m1_with
  verify_m1_with-Inv s none i = same-Inv i.facts
  verify_m1_with-Inv s (some a) i =
      let keys = x25519_generate b s.draws in
      http_post-Inv b (codes "/pair-verify") octets
        (Tlv.encode ((Tag.state, 0x01 ∷ []) ∷ ((Tag.public_key, keys.0) ∷ [])))
        (at_stage PairStage.verify_m2 (
          with_ap2 (record a { verify_pub = keys.0; verify_priv = keys.1 })
            (record s { draws = suc s.draws })))
        (same-Inv i.facts)

  pub send_pair_verify_m1-Inv : (s : Sender) → Inv s → Inv (send_pair_verify_m1 b s)
  unfolding send_pair_verify_m1
  send_pair_verify_m1-Inv s i = verify_m1_with-Inv s s.ap2 i

  with_seed-Inv : (s : Sender) (a : Ap2) → Inv s → Inv (with_seed b s a).0
  unfolding with_seed
  with_seed-Inv s a i =
      if-both (λ (r : Sender × Ap2). Inv r.0) (is_empty a.lt_seed) _ _ (same-Inv i.facts) i

  with_id-Inv : (r : Sender × Ap2) → Inv r.0 → Inv (with_id b r).0
  unfolding with_id
  with_id-Inv (s, a) i =
      if-both (λ (r : Sender × Ap2). Inv r.0) (is_empty a.pairing_id) _ _ (same-Inv i.facts) i

  with_identity-Inv : (s : Sender) (a : Ap2) → Inv s → Inv (with_identity b s a).0
  unfolding with_identity
  with_identity-Inv s a i = with_id-Inv _ (with_seed-Inv s a i)

  m5_sent-Inv :
      (s : Sender) (a : Ap2) (key : Bytes) (o : Option Bytes) → Inv s → Inv (m5_sent b s a key o)
  unfolding m5_sent
  m5_sent-Inv s a key none i = same-Inv i.facts
  m5_sent-Inv s a key (some enc) i =
      http_post-Inv b (codes "/pair-setup") octets
        (Tlv.encode ((Tag.state, 0x05 ∷ []) ∷ ((Tag.encrypted_data, enc) ∷ [])))
        (at_stage PairStage.setup_m6 (with_ap2 a (record s { pair_setup_session_key = key })))
        (same-Inv i.facts)

  m5_with-Inv : (s : Sender) (a : Ap2) (c : SrpClient) → Inv s → Inv (m5_with b s a c)
  unfolding m5_with
  m5_with-Inv s a c i =
      let r = with_identity b s a in
      let key =
        hkdf b (codes "Pair-Setup-Encrypt-Salt") (codes "Pair-Setup-Encrypt-Info") c.session_key in
      m5_sent-Inv r.0 r.1 key
        (encrypt b key (codes "PS-Msg05") (Tlv.encode (m5_items b c.session_key r.1)) [])
        (with_identity-Inv s a i)

  m4_with-Inv :
      (proof : Option Bytes) (s : Sender) (a : Ap2) (o : Option SrpClient)
      → Inv s
      → Inv (m4_with b proof s a o)
  unfolding m4_with
  m4_with-Inv proof s a none i = same-Inv i.facts
  m4_with-Inv proof s a (some c) i =
      if-both Inv (not (proven b c proof) && s.config.strict_auth) _ _
        (fail-Inv (refused_proof b (is_some proof)) s i)
        (if-both Inv (is_transient s.auth_method) _ _
          (after_auth_ok-Inv b
            (at_stage PairStage.done (
              with_ap2 (control_keys b c.session_key (record a { shared_secret = c.session_key }))
                s))
            (same-Inv i.facts))
          (m5_with-Inv s a c i))

  m4_ap2-Inv :
      (proof : Option Bytes) (s : Sender) (o : Option Ap2) → Inv s → Inv (m4_ap2 b proof s o)
  unfolding m4_ap2
  m4_ap2-Inv proof s none i = same-Inv i.facts
  m4_ap2-Inv proof s (some a) i = m4_with-Inv proof s a a.srp i

  m4_proof-Inv : (proof : Option Bytes) (s : Sender) → Inv s → Inv (m4_proof b proof s)
  unfolding m4_proof
  m4_proof-Inv none s i =
      if-both Inv s.config.strict_auth _ _ (fail-Inv (refused_proof b false) s i)
        (m4_ap2-Inv none s s.ap2 i)
  m4_proof-Inv (some proof) s i = m4_ap2-Inv (some proof) s s.ap2 i

  m4_error-Inv : (m : Items) (s : Sender) (err : Option Bytes) → Inv s → Inv (m4_error b m s err)
  unfolding m4_error
  m4_error-Inv m s none i = m4_proof-Inv (get m Tag.proof) s i
  m4_error-Inv m s (some err) i =
      fail-Inv (with_error (codes "Pairing PIN was not accepted") err) s i

  pub handle_pair_setup_m4-Inv :
      (body : Bytes) (s : Sender) → Inv s → Inv (handle_pair_setup_m4 b body s)
  unfolding handle_pair_setup_m4
  handle_pair_setup_m4-Inv body s i =
      m4_error-Inv (Tlv.decode body) s (get (Tlv.decode body) Tag.error) i
