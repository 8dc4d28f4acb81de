-- ===== src/Log/Filling.antt =====
-- What `raopFormat` of src/raop_log.h makes of a template.
use airplay2_sender_cpp.Log.{
  Arg, open_brace, close_brace, is_brace, shown, format_rest, after_close, placed, format_first,
  format_into, raop_format,
}
use airplay2_sender_cpp.Log.Braces.{
  escape, rest-plain, rest-escape, Follows, rest-close_escape, first-escape,
}
use airplay2_sender_cpp.Base.{some, arith, ◌++◌, refl, ap, ◌∙◌, ◌≢◌, Bytes, List, ◌≡◌, [], ◌∷◌}

-- A name in a place, which has no brace.
abbrev pub IsName : Bytes → Type 0
IsName [] = Unit
IsName (c ∷ cs) = (c ≢ open_brace) × ((c ≢ close_brace) × IsName cs)

-- What stands behind the first text: places, each with its name and the text behind it.
unfoldable pub places : List (Bytes × Bytes) → Bytes
unfolding escape
places [] = []
places ((name, u) ∷ us) = open_brace ∷ (name ++ (close_brace ∷ (escape u ++ places us)))

abbrev pub AreNames : List (Bytes × Bytes) → Type 0
AreNames [] = Unit {0}
AreNames ((name, u) ∷ us) = IsName name × AreNames us

-- The same with an argument in each place, as long as there are some.
unfoldable pub filled : List (Bytes × Bytes) → List Arg → Bytes
unfolding shown
filled [] args = []
filled ((name, u) ∷ us) [] = open_brace ∷ (name ++ (close_brace ∷ (u ++ filled us [])))
filled ((name, u) ∷ us) (a ∷ args) = shown a ++ (u ++ filled us args)

rest-name :
    (name xs : Bytes)
    → IsName name
    → format_rest (name ++ (close_brace ∷ xs)) ≡ name ++ format_rest (close_brace ∷ xs)
rest-name [] xs h = refl
rest-name (c ∷ cs) xs h =
    rw (rest-plain c (cs ++ (close_brace ∷ xs)) h.0 h.1.0, rest-name cs xs h.1.1) refl

rest-place :
    (name xs : Bytes)
    → IsName name
    → format_rest (open_brace ∷ (name ++ (close_brace ∷ xs)))
      ≡ open_brace ∷ (name ++ format_rest (close_brace ∷ xs))
unfolding format_rest is_brace
rest-place [] xs h = refl
rest-place (c ∷ cs) xs h = ground (arith, h, rest-name (c ∷ cs) xs h)

places-Follows : (us : List (Bytes × Bytes)) → Follows (places us)
unfolding places
places-Follows [] = tt
places-Follows ((name, u) ∷ us) = refl

rest-places : (us : List (Bytes × Bytes)) → AreNames us → format_rest (places us) ≡ filled us []
unfolding places filled format_rest
rest-places [] h = refl
rest-places ((name, u) ∷ us) h =
    rw
      (
        rest-place name (escape u ++ places us) h.0,
        rest-close_escape u (places us) (places-Follows us),
        rest-places us h.1,
      )
      refl

after_close-name :
    (name xs : Bytes) → IsName name → after_close (name ++ (close_brace ∷ xs)) ≡ some xs
unfolding after_close
after_close-name [] xs h = refl
after_close-name (c ∷ cs) xs h = ground (arith, h, after_close-name cs xs h.1.1)

first-place :
    (first : Bytes) (rest : Bytes → Bytes) (name xs : Bytes)
    → IsName name
    → format_first first rest (open_brace ∷ (name ++ (close_brace ∷ xs))) ≡ first ++ rest xs
unfolding format_first placed
first-place first rest [] xs h = refl
first-place first rest (c ∷ cs) xs h = ground (arith, h, after_close-name (c ∷ cs) xs h)

places-filled :
    (t : Bytes) (us : List (Bytes × Bytes)) (args : List Arg)
    → AreNames us
    → format_into args (escape t ++ places us) ≡ t ++ filled us args
unfolding format_into filled places
places-filled t us [] h = rest-escape t (places us) ∙ ap (λ x. t ++ x) (rest-places us h)
places-filled t [] (a ∷ args) h = first-escape (shown a) (format_into args) t (places [])
places-filled t ((name, u) ∷ us) (a ∷ args) h =
    first-escape (shown a) (format_into args) t (places ((name, u) ∷ us))
    ∙ ap (λ x. t ++ x)
        (first-place (shown a) (format_into args) name (escape u ++ places us) h.0
          ∙ ap (λ x. shown a ++ x) (places-filled u us args h.1))

-- A template is a text and places, each with a brace-free name between its braces and a text behind
-- it, with the braces of the texts doubled. Formatting it yields the texts, with the arguments in the
-- places one after another; surplus arguments are ignored, and a place for which no argument is left
-- stays as it was written.
pub raop_format-filled :
    (t : Bytes) (us : List (Bytes × Bytes)) (args : List Arg)
    → AreNames us
    → raop_format (escape t ++ places us) args ≡ t ++ filled us args
unfolding raop_format
raop_format-filled t us args h = places-filled t us args h
