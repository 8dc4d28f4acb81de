-- ===== src/Sender/Pairing/Verify/Strict.antt =====
-- Strict receiver authentication of `handlePairSetupM4_` of src/raop_sender.cpp fails closed.
use airplay2_sender_cpp.Base.{
  arith, sym, subst, ◌≡◌, Bool, true, false, not, ◌&&◌, Bytes, Option, none, some, if-split, codes,
}
use airplay2_sender_cpp.Crypto.Backend.{Backend}
use airplay2_sender_cpp.Crypto.Srp.{SrpClient}
use airplay2_sender_cpp.Tlv.{Items, get}
use airplay2_sender_cpp.Tlv
use airplay2_sender_cpp.Tlv.Tag
use airplay2_sender_cpp.Sender.State.{Sender, Ap2}
use airplay2_sender_cpp.Sender.Lifecycle.Closing.{IsClosed, fail-IsClosed}
use airplay2_sender_cpp.Sender.Pairing.Setup.{with_error}
use airplay2_sender_cpp.Sender.Pairing.Verify.{
  is_some, refused_proof, proven, m4_with, m4_ap2, m4_proof, m4_error, handle_pair_setup_m4,
}

unproven : (x y : Bool) → x ≡ false → y ≡ true → (not x && y) ≡ false → ⊥
unproven x y h k e = ground arith

clash : (y : Bool) → y ≡ true → y ≡ false → ⊥
clash y h e = ground arith

module _ (b : Backend) where
  m4_with-strict :
      (proof : Option Bytes) (s : Sender) (a : Ap2) (c : SrpClient)
      → s.config.strict_auth ≡ true
      → proven b c proof ≡ false
      → IsClosed s (m4_with b proof s a (some c))
  unfolding m4_with
  m4_with-strict proof s a c h u =
      if-split (IsClosed s) (not (proven b c proof) && s.config.strict_auth) _ _
        (λ e. fail-IsClosed (refused_proof b (is_some proof)) s) (λ e. absurd (unproven _ _ u h e))

  m4_ap2-strict :
      (proof : Option Bytes) (s : Sender) (a : Ap2) (c : SrpClient)
      → s.ap2 ≡ some a
      → a.srp ≡ some c
      → s.config.strict_auth ≡ true
      → proven b c proof ≡ false
      → IsClosed s (m4_ap2 b proof s s.ap2)
  unfolding m4_ap2
  m4_ap2-strict proof s a c e f h u =
      subst (λ o. IsClosed s (m4_ap2 b proof s o)) (sym e)
        (subst (λ o. IsClosed s (m4_with b proof s a o)) (sym f) (m4_with-strict proof s a c h u))

  m4_proof-strict :
      (proof : Option Bytes) (s : Sender) (a : Ap2) (c : SrpClient)
      → s.ap2 ≡ some a
      → a.srp ≡ some c
      → s.config.strict_auth ≡ true
      → proven b c proof ≡ false
      → IsClosed s (m4_proof b proof s)
  unfolding m4_proof
  m4_proof-strict none s a c e f h u =
      if-split (IsClosed s) s.config.strict_auth _ _ (λ k. fail-IsClosed (refused_proof b false) s)
        (λ k. absurd (clash _ h k))
  m4_proof-strict (some proof) s a c e f h u = m4_ap2-strict (some proof) s a c e f h u

  m4_error-strict :
      (m : Items) (s : Sender) (a : Ap2) (c : SrpClient) (err : Option Bytes)
      → s.ap2 ≡ some a
      → a.srp ≡ some c
      → s.config.strict_auth ≡ true
      → proven b c (get m Tag.proof) ≡ false
      → IsClosed s (m4_error b m s err)
  unfolding m4_error
  m4_error-strict m s a c none e f h u = m4_proof-strict (get m Tag.proof) s a c e f h u
  m4_error-strict m s a c (some err) e f h u =
      fail-IsClosed (with_error (codes "Pairing PIN was not accepted") err) s

  -- In strict mode, a reply to the SRP proof that holds no proof, or one that the SRP client of the
  -- session does not verify, fails the session, closing every socket and stopping every timer.
  pub handle_pair_setup_m4-strict :
      (body : Bytes) (s : Sender) (a : Ap2) (c : SrpClient)
      → s.ap2 ≡ some a
      → a.srp ≡ some c
      → s.config.strict_auth ≡ true
      → proven b c (get (Tlv.decode body) Tag.proof) ≡ false
      → IsClosed s (handle_pair_setup_m4 b body s)
  unfolding handle_pair_setup_m4
  handle_pair_setup_m4-strict body s a c e f h u =
      m4_error-strict (Tlv.decode body) s a c (get (Tlv.decode body) Tag.error) e f h u
