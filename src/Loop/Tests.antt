-- ===== src/Loop/Tests.antt =====
-- Runs of the loop over a small system.
use airplay2_sender_cpp.Base.{
  ℕ, ◌*◌, ◌≡◌, refl, true, false, List, [], ◌∷◌, Option, none, some, codes, length, ◌==◌, arith,
  min, replicate,
}
use airplay2_sender_cpp.Crypto.Samples.{sample_backend}
use airplay2_sender_cpp.Sender.Auth.{Auth}
use airplay2_sender_cpp.Sender.Action.{RaopTcp}
use airplay2_sender_cpp.Sender.Calls.{Call, new_sender, step, set_auth}
use airplay2_sender_cpp.Sender.Timers.{next_deadline}
use airplay2_sender_cpp.Loop.System.{Sys, Os, Answer, Loop, new_loop}
use airplay2_sender_cpp.Loop.Slots.{destroy}
use airplay2_sender_cpp.Loop.Io.{tcp_send}
use airplay2_sender_cpp.Loop.Client.{sender_client}
use airplay2_sender_cpp.Loop.Pump.{Use, session}
use airplay2_sender_cpp.Loop.Descriptors.{Proper, live}
use airplay2_sender_cpp.Loop.Descriptors.Sessions.{session-Balanced}
use airplay2_sender_cpp.Loop.Stream.{SendLaw}
use airplay2_sender_cpp.Loop.Stream.Send.{Queues, tcp_send-Queues}

abbrev plain_answer : List Sys → Answer
plain_answer log = record {
  count = some 0;
  bytes = codes "RTSP/1.0 200 OK";
  endpoint = record { ip = codes "10.0.0.2"; port = 6000 };
  errno = 11;
  revents = replicate 5 (record {
    poll_in = true;
    poll_out = true;
    poll_err = false;
    poll_hup = false;
    poll_nval = false;
  });
  time = length log * 1000000;
  wall = length log * 1000;
}

abbrev count_of : List Sys → Option ℕ
count_of (Sys.socket stream ∷ log) = some (length log)
count_of (Sys.send fd bytes ∷ log) = some (min 100 (length bytes))
count_of (Sys.recv fd n ∷ log) = none
count_of (Sys.recvfrom fd n ∷ log) = none
count_of (Sys.poll fds ms ∷ log) = some 5
count_of log = some 0

-- Sockets are numbered by the calls before them, and `send` takes a hundred bytes at a time.
abbrev small_os : Os
small_os = record {
  answer = λ log. record (plain_answer log) { count = count_of log };
  error_text = λ e. codes "error";
  would_block = λ e. e == 11;
  in_progress = λ e. false;
  valid_ip = λ ip. true;
}

small_law : SendLaw small_os
small_law = record { bounded = λ fd bytes log n e. ground arith }

-- A session with AirPlay 2 is started, and the loop runs twice.
abbrev uses : List Use
uses =
    Use.request (Call.auth_call Auth.hap_transient true (codes "AA") [] [])
    ∷ (Use.request (Call.start_call (codes "10.0.0.2") 7000 (codes "Kitchen") 6001 6002 6003)
        ∷ (Use.round 50 ∷ (Use.round 50 ∷ [])))

session-Balanced_example :
    let l =
      destroy
        (session small_os 10
          (sender_client sample_backend)
          uses
          (record { client = new_sender; loop = new_loop })).loop in
    Proper small_os l.log × ((x : ℕ) → live small_os x l.log ≡ 0)
session-Balanced_example =
    session-Balanced small_os 10 (sender_client sample_backend) uses new_sender

-- A connected slot with three bytes still to send.
abbrev sending : Loop
sending = record new_loop {
  tcp_control = record (new_loop.tcp_control) {
    fd = some 7;
    connected = true;
    out = 1 ∷ (2 ∷ (3 ∷ (4 ∷ [])));
    out_off = 1;
  };
}

tcp_send-Queues_example :
    Queues small_os RaopTcp.control
      (codes "OPTIONS")
      sending
      (tcp_send small_os 10 RaopTcp.control (codes "OPTIONS") sending)
tcp_send-Queues_example =
    tcp_send-Queues small_os 10 small_law RaopTcp.control (codes "OPTIONS") sending refl
      (omega arith)

-- The session makes 32 calls of the system.
calls_of_uses :
    length
      (session small_os 10
        (sender_client sample_backend)
        uses
        (record { client = new_sender; loop = new_loop })).loop.log
    ≡ 32
unfolding session step next_deadline set_auth
calls_of_uses = refl
