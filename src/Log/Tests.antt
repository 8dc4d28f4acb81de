-- ===== src/Log/Tests.antt =====
-- Runs of the formatter.
use airplay2_sender_cpp.Log.Braces.{escape}
use airplay2_sender_cpp.Log.Filling.{places, filled, raop_format-filled}
use airplay2_sender_cpp.Base.{arith, ◌++◌, Bytes, List, ◌≡◌, refl, true, [], ◌∷◌, none, codes}
use airplay2_sender_cpp.Text.Numbers.{negsuc, to_string}
use airplay2_sender_cpp.Log.{Arg, raop_format, format_into, format_first, format_rest, shown}

raop_format-two :
    raop_format
      (codes "{} of {{{}}}, {")
      (Arg.integral (negsuc 6) ∷ (Arg.flag true ∷ (Arg.c_text none ∷ [])))
    ≡ codes "-7 of {true}, {"
unfolding raop_format format_into format_first shown to_string
raop_format-two = refl

raop_format-missing :
    raop_format (codes "{x} and {}") (Arg.text (codes "one") ∷ []) ≡ codes "one and {}"
unfolding raop_format format_into format_first format_rest
raop_format-missing = refl

abbrev greeting : List (Bytes × Bytes)
greeting = (codes "name", codes ": {") ∷ (([], codes "} again ") ∷ (([], []) ∷ []))

raop_format-filled_example :
    raop_format
      (escape (codes "{to}") ++ places greeting)
      (Arg.text (codes "Kitchen") ∷ (Arg.letter 65 ∷ []))
    ≡ codes "{to}" ++ filled greeting (Arg.text (codes "Kitchen") ∷ (Arg.letter 65 ∷ []))
raop_format-filled_example =
    raop_format-filled (codes "{to}") greeting (Arg.text (codes "Kitchen") ∷ (Arg.letter 65 ∷ []))
      (ground arith, (tt, (tt, tt)))
