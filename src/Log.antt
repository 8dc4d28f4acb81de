-- ===== src/Log.antt =====
-- The formatter of src/raop_log.h: `{}` stands for the next argument, a doubled brace for a brace.
pub mod Braces
pub mod Filling
pub mod Tests
use airplay2_sender_cpp.Base.{
  ◌+◌, ℕ, Bool, true, false, ◌&&◌, ◌||◌, List, [], ◌∷◌, ◌++◌, Option, none, some, Bytes, codes,
  ◌==◌, if◌then◌else◌,
}
use airplay2_sender_cpp.Text.Numbers.{ℤ, pos, negsuc, to_string}

abbrev pub open_brace : ℕ
open_brace = b'{'

abbrev pub close_brace : ℕ
close_brace = b'}'

-- An argument by the overload of `appendArg` that takes it.
pub data Arg : Type 0 where
  text : Bytes → Arg
  c_text : Option Bytes → Arg
  flag : Bool → Arg
  letter : ℕ → Arg
  integral : ℤ → Arg
  -- any other type, by what its operator `<<` writes
  streamed : Bytes → Arg

-- `appendArg`, what it appends.
unfoldable pub shown : Arg → Bytes
shown (Arg.text v) = v
shown (Arg.c_text none) = codes "(null)"
shown (Arg.c_text (some v)) = v
shown (Arg.flag v) = if v then codes "true" else codes "false"
shown (Arg.letter v) = v ∷ []
shown (Arg.integral (pos n)) = to_string n
shown (Arg.integral (negsuc n)) = b'-' ∷ to_string (n + 1)
shown (Arg.streamed v) = v

unfoldable pub is_brace : ℕ → Bool
is_brace c = (c == open_brace) || (c == close_brace)

-- `formatInto` with no argument left.
unfoldable pub format_rest : Bytes → Bytes
unfolding is_brace
format_rest [] = []
format_rest (c ∷ []) = c ∷ []
format_rest (c ∷ (d ∷ fmt)) = elim (is_brace c && (d == c)) [
  | true ↦ c ∷ format_rest fmt
  | false ↦ c ∷ format_rest (d ∷ fmt)
]

-- `find('}', i)`: what follows the first closing brace.
unfoldable pub after_close : Bytes → Option Bytes
after_close [] = none
after_close (c ∷ fmt) = if c == close_brace then some fmt else after_close fmt

-- At an opening brace, in front of `fmt`: the argument and the rest, or the text as it is.
unfoldable pub placed : Bytes → (Bytes → Bytes) → Bytes → Option Bytes → Bytes
placed first rest fmt none = open_brace ∷ fmt
placed first rest fmt (some after) = first ++ rest after

-- The loop of `formatInto` up to the place of the argument; `rest` formats what comes behind it.
unfoldable pub format_first : Bytes → (Bytes → Bytes) → Bytes → Bytes
unfolding placed after_close
format_first first rest [] = []
format_first first rest (c ∷ []) = c ∷ []
format_first first rest (c ∷ (d ∷ fmt)) = elim (c == open_brace) [
  | true ↦ elim (d == open_brace) [
    | true ↦ open_brace ∷ format_first first rest fmt
    | false ↦ placed first rest (d ∷ fmt) (after_close (d ∷ fmt))
  ]
  | false ↦ elim ((c == close_brace) && (d == close_brace)) [
    | true ↦ close_brace ∷ format_first first rest fmt
    | false ↦ c ∷ format_first first rest (d ∷ fmt)
  ]
]

-- `formatInto`
unfoldable pub format_into : List Arg → Bytes → Bytes
unfolding format_rest format_first shown
format_into [] fmt = format_rest fmt
format_into (first ∷ rest) fmt = format_first (shown first) (format_into rest) fmt

-- `raopFormat`
unfoldable pub raop_format : Bytes → List Arg → Bytes
unfolding format_into
raop_format fmt args = format_into args fmt
