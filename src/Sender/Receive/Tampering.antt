-- ===== src/Sender/Receive/Tampering.antt =====
-- Encrypted bytes that were tampered with, at `onRtspReadyRead_` of src/raop_sender.cpp.
use airplay2_sender_cpp.Base.{
  ℕ, ◌≡◌, refl, ap, sym, subst, ◌∙◌, true, some, [], ◌∷◌, ◌++◌, Bytes, length, codes, elim-split,
}
use airplay2_sender_cpp.Crypto.Backend.{Backend, CipherLaws}
use airplay2_sender_cpp.Frames.{Unframed, next_counter, frames, unframe}
use airplay2_sender_cpp.Frames.Tampering.{Refused, unframe-tampered}
use airplay2_sender_cpp.Sender.State.{Sender, Ap2}
use airplay2_sender_cpp.Sender.Lifecycle.{fail}
use airplay2_sender_cpp.Sender.Lifecycle.Closing.{IsClosed, fail-IsClosed}
use airplay2_sender_cpp.Sender.Receive.{unframed, ready_with, on_rtsp_ready_read}

-- The sender with the bytes that were read, before it fails.
abbrev pub with_read : Bytes → Bytes → ℕ → Sender → Sender
with_read plain enc ctr s = record s {
  chan = record (s.chan) {
    rx_buf = s.chan.rx_buf ++ plain;
    rtsp_enc_buf = enc;
    ctrl_recv_ctr = ctr;
  };
}

abbrev received_frames : Backend → Bytes → Ap2 → Sender → Unframed
received_frames b bytes a s =
    unframe b a.control_in s.chan.ctrl_recv_ctr (s.chan.rtsp_enc_buf ++ bytes)

ready_with-encrypted :
    (b : Backend) (bytes : Bytes) (s : Sender) (a : Ap2)
    → s.chan.control_encrypted ≡ true
    → ready_with b bytes s (some a) ≡ unframed b (received_frames b bytes a s) s
unfolding ready_with
ready_with-encrypted b bytes s a on =
    elim-split (λ (t : Sender). t ≡ unframed b (received_frames b bytes a s) s)
      s.chan.control_encrypted _ _ (λ e. refl) (λ e. cc)

unframed-failed :
    (b : Backend) (plain rest : Bytes) (ctr : ℕ) (s : Sender)
    → unframed b (record { plain = plain; rest = rest; ctr = ctr; failed = true }) s
      ≡ fail (codes "Encrypted control channel authentication failed") (with_read plain rest ctr s)
unfolding unframed
unframed-failed b plain rest ctr s = refl

module _ (b : Backend) (laws : CipherLaws b) where
  -- On an encrypted control channel with a 32-byte key and no partial frame waiting, frames that
  -- carry `text` and, behind them, a whole frame that decryption refuses: the session is closed, and
  -- it fails at once. Of all that was read nothing is dispatched; the text is only appended to the
  -- receive buffer.
  pub on_rtsp_ready_read-IsClosed :
      (s : Sender) (a : Ap2) (text wire body : Bytes) (last x y : ℕ)
      → s.ap2 ≡ some a
      → length a.control_in ≡ 32
      → s.chan.control_encrypted ≡ true
      → s.chan.rtsp_enc_buf ≡ []
      → frames b a.control_in s.chan.ctrl_recv_ctr text ≡ some (wire, last)
      → Refused b a.control_in last x y body
      → (on_rtsp_ready_read b (wire ++ (x ∷ (y ∷ body))) s
          ≡ fail
              (codes "Encrypted control channel authentication failed")
              (with_read text (x ∷ (y ∷ body)) (next_counter last) s))
        × IsClosed s (on_rtsp_ready_read b (wire ++ (x ∷ (y ∷ body))) s)
  unfolding on_rtsp_ready_read
  on_rtsp_ready_read-IsClosed s a text wire body last x y paired size on fresh sealed bad =
      let bytes = wire ++ (x ∷ (y ∷ body)) in
      let why = codes "Encrypted control channel authentication failed" in
      let t = with_read text (x ∷ (y ∷ body)) (next_counter last) s in
      let reads =
        ap (λ (e : Bytes). unframe b a.control_in s.chan.ctrl_recv_ctr (e ++ bytes)) fresh
        ∙ unframe-tampered b laws a.control_in size s.chan.ctrl_recv_ctr last x y text wire body
            sealed bad in
      let fails =
        ap (ready_with b bytes s) paired
        ∙ ready_with-encrypted b bytes s a on
        ∙ ap (λ (u : Unframed). unframed b u s) reads
        ∙ unframed-failed b text (x ∷ (y ∷ body)) (next_counter last) s in
      (fails, subst (λ (r : Sender). IsClosed s r) (sym fails) (fail-IsClosed why t))
