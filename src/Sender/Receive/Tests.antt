-- ===== src/Sender/Receive/Tests.antt =====
-- A session whose control connection is tampered with.
use airplay2_sender_cpp.Base.{
  ◌≡◌, refl, true, some, [], ◌∷◌, ◌++◌, Bytes, codes, replicate, arith, bytes_eq,
}
use airplay2_sender_cpp.Crypto.Samples.{checking_backend, checking_laws}
use airplay2_sender_cpp.Crypto.Aead.{encrypt, decrypt}
use airplay2_sender_cpp.Frames.{frames, next_counter}
use airplay2_sender_cpp.Sender.Stage.{State}
use airplay2_sender_cpp.Sender.State.{Sender, Ap2, new_ap2}
use airplay2_sender_cpp.Sender.Lifecycle.{fail}
use airplay2_sender_cpp.Sender.Lifecycle.Closing.{IsClosed}
use airplay2_sender_cpp.Sender.Calls.{new_sender}
use airplay2_sender_cpp.Sender.Receive.{on_rtsp_ready_read}
use airplay2_sender_cpp.Sender.Receive.Tampering.{with_read, on_rtsp_ready_read-IsClosed}

abbrev keys : Ap2
keys = record new_ap2 { control_in = replicate 32 1 }

abbrev secured : Sender
secured = record new_sender {
  state = State.handshake;
  ap2 = some keys;
  chan = record (new_sender.chan) { control_encrypted = true };
}

-- A frame around two bytes, and one whose tag is wrong.
abbrev good_frame : Bytes
good_frame = 2 ∷ (0 ∷ (8 ∷ (9 ∷ replicate 16 0)))

abbrev bad_frame : Bytes
bad_frame = 7 ∷ replicate 16 5

on_rtsp_ready_read-IsClosed_example :
    (on_rtsp_ready_read checking_backend (good_frame ++ (1 ∷ (0 ∷ bad_frame))) secured
      ≡ fail
          (codes "Encrypted control channel authentication failed")
          (with_read (8 ∷ (9 ∷ [])) (1 ∷ (0 ∷ bad_frame)) (next_counter 1) secured))
    × IsClosed secured
        (on_rtsp_ready_read checking_backend (good_frame ++ (1 ∷ (0 ∷ bad_frame))) secured)
unfolding frames encrypt decrypt bytes_eq
on_rtsp_ready_read-IsClosed_example =
    on_rtsp_ready_read-IsClosed checking_backend checking_laws secured keys (8 ∷ (9 ∷ []))
      good_frame bad_frame 1 1 0 refl refl refl refl refl (omega arith, refl)
