-- ===== src/Text/Tests.antt =====
-- Runs of the text helpers.
use airplay2_sender_cpp.Base.{◌≡◌, some, arith, codes}
use airplay2_sender_cpp.Text.{split_on}
use airplay2_sender_cpp.Text.Splitting.{Cuts, split_on-Cuts}
use airplay2_sender_cpp.Text.Numbers.{pos, parse_int, to_string}
use airplay2_sender_cpp.Text.Numbers.RoundTrip.{parse_int-to_string}

parse_int-to_string_example : parse_int (to_string 44100) ≡ some (pos 44100)
parse_int-to_string_example = parse_int-to_string 44100 (omega arith)

split_on-Cuts_example :
    Cuts b';'
      (codes "server_port=6001;control_port=6002")
      (split_on b';' (codes "server_port=6001;control_port=6002"))
split_on-Cuts_example = split_on-Cuts b';' (codes "server_port=6001;control_port=6002")
