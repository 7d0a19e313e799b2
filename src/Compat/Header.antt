-- ===== src/Compat/Header.antt =====
-- The headers of src/agentpause/adapters/openai_compat.py, and `_parse_reset` of
-- src/agentpause/adapters/litellm.py, which reads their durations.
use agentpause.Prelude.{
  ℕ, ◌+◌, ◌*◌, ◌-◌, Bool, true, false, not, ◌&&◌, ◌||◌, Option, none, some, List, [], ◌∷◌, ◌==◌,
  if◌then◌else◌, leb, is_none,
}
use agentpause.Prelude.Int.{ℤ, pos}
use agentpause.Prelude.Dict.{Dict, lookup, insert}
use agentpause.Number.{Float, nought, max_f}
use agentpause.Errors.{Result, ok, raise, foreign}
use agentpause.Text.{Text, codes, text_eq, text_instance}
use agentpause.Risk.{Budget}
use agentpause.Json.{Reading, read_int}
use agentpause.Slots.{bind}

abbrev pub Headers : Type 0
Headers = Dict Text Text

abbrev is_digit : ℕ → Bool
is_digit c = leb 48 c && leb c 57

abbrev is_space : ℕ → Bool
is_space c = c == 32 || (leb 9 c && leb c 13)

-- `str.lower` of a header name
unfoldable pub lower : Text → Text
lower [] = []
lower (c ∷ s) = (if leb 65 c && leb c 90 then c + 32 else c) ∷ lower s

-- `{str(k).lower(): v for k, v in headers.items()}`
unfoldable pub lowered : Headers → Headers → Headers
unfolding lower
lowered h [] = h
lowered h ((k, v) ∷ rest) = lowered (insert (lower k) v h) rest

-- `grab(*names)`
unfoldable pub grab : List Text → Headers → Option Text
grab [] h = none
grab (n ∷ ns) h = elim (lookup n h) [ some v ↦ some v | none ↦ grab ns h ]

-- the longest prefix of characters that pass a test, and the rest
unfoldable pub span : (ℕ → Bool) → Text → Text × Text
span p [] = ([], [])
span p (c ∷ s) = let (run, rest) = span p s in if p c then (c ∷ run, rest) else ([], c ∷ s)

unfoldable pub strip_left : Text → Text
strip_left [] = []
strip_left (c ∷ s) = let rest = strip_left s in if is_space c then rest else c ∷ s

-- whether a text is white space only
unfoldable pub blank : Text → Bool
blank [] = true
blank (c ∷ s) = is_space c && blank s

-- `text.strip()`
unfoldable pub strip_right : Text → Text
unfolding blank
strip_right [] = []
strip_right (c ∷ s) = let rest = strip_right s in if blank (c ∷ s) then [] else c ∷ rest

unfoldable pub strip : Text → Text
unfolding strip_left strip_right
strip s = strip_right (strip_left s)

abbrev has : ℕ → Text → Bool
has c [] = false
has c (d ∷ s) = d == c || has c s

-- `int` of a run of digits
unfoldable pub digits_value : ℕ → Text → ℕ
digits_value acc [] = acc
digits_value acc (c ∷ s) = digits_value (acc * 10 + (c - 48)) s

-- a group `(\d+)` and the letter behind it: `h`, or `m` that no `s` follows
abbrev marks : ℕ → Text → Option Text
marks letter [] = none
marks letter (c ∷ []) = if c == letter then some [] else none
marks letter (c ∷ d ∷ s) =
    if c == letter && not (letter == 109 && d == 115) then some (d ∷ s) else none

-- a run of digits and what is behind it, if the letter is
unfoldable pub unit_of : ℕ → Text → Text × Text → Option Text × Text
unit_of letter s ([], rest) = (none, s)
unit_of letter s (c ∷ run, rest) = elim (marks letter rest) [
  | none ↦ (none, s)
  | some t ↦ (some (c ∷ run), t)
]

unfoldable pub unit_group : ℕ → Text → Option Text × Text
unfolding unit_of span
unit_group letter s = unit_of letter s (span is_digit s)

-- the suffix behind the number: nothing, `s` or `ms`
pub data Suffix : Type 0 where
  bare seconds milliseconds : Suffix

unfoldable pub suffix_of : Text → Option Suffix
suffix_of s =
    if text_eq s []
    then some bare
    else if text_eq s (codes "s")
    then some seconds
    else if text_eq s (codes "ms")
    then some milliseconds
    else none

abbrev is_number : ℕ → Bool
is_number c = is_digit c || c == 46

abbrev value_of : Option Text → ℕ
value_of none = 0
value_of (some run) = digits_value 0 run

module _ {F : Type 0} ⦃f : Float F⦄ (r : Reading F) where
  open f use {of_int, lit, add, div, sub}

  -- `float(s)`, which may raise ValueError
  unfoldable pub to_float : Text → Result F F
  to_float s = elim (r.float_of s) [ none ↦ raise foreign | some x ↦ ok x ]

  -- the seconds of the third group: a number, then white space and a suffix
  unfoldable pub scaled : Suffix → F → F
  scaled milliseconds x = div x (of_int (pos 1000))
  scaled seconds x = x
  scaled bare x = x

  unfoldable pub seconds_of : Text → Suffix → Result F F
  unfolding to_float scaled bind
  seconds_of [] suffix = ok (scaled suffix (of_int (pos 0)))
  seconds_of (c ∷ number) suffix = bind (to_float (c ∷ number)) λ x. ok (scaled suffix x)

  -- `hours * 3600 + minutes * 60 + seconds`
  unfoldable pub total : Option Text → Option Text → F → F
  unfolding digits_value
  total hours minutes x = add (of_int (pos (value_of hours * 3600 + value_of minutes * 60))) x

  -- what is behind the hours and the minutes: the whole pattern must match, and some group
  unfoldable pub duration_end : Option Text → Option Text → Text × Text → Result F (Option F)
  unfolding total seconds_of suffix_of strip_left bind
  duration_end hours minutes ([], []) =
      if is_none hours && is_none minutes
      then ok none
      else bind (seconds_of [] bare) λ x. ok (some (total hours minutes x))
  duration_end hours minutes ([], c ∷ rest) = ok none
  duration_end hours minutes (c ∷ number, rest) = elim (suffix_of (strip_left rest)) [
    | none ↦ ok none
    | some suffix ↦ bind (seconds_of (c ∷ number) suffix) λ x. ok (some (total hours minutes x))
  ]

  unfoldable pub duration_of : Text → Result F (Option F)
  unfolding unit_group duration_end span
  duration_of s =
      let (hours, rest) = unit_group 104 s in
      let (minutes, rest') = unit_group 109 rest in
      duration_end hours minutes (span is_number rest')

  -- `max(0.0, …)`, unless the text was no instant
  abbrev not_negative : Option F → Option F
  not_negative none = none
  not_negative (some x) = some (max_f nought x)

  -- `_parse_reset`, where `until` is the time to an RFC 3339 instant: none if the text is no instant, and
  -- a TypeError if it names no zone
  unfoldable pub parse_reset : (Text → Result F (Option F)) → Text → Result F (Option F)
  unfolding duration_of strip bind
  parse_reset until [] = ok none
  parse_reset until (c ∷ value) =
      let s = strip (c ∷ value) in
      if has 84 s && has 45 s
      then bind (until s) (λ left. ok (not_negative left))
      else duration_of s

  -- `int(float(value))`, which may raise twice
  unfoldable pub whole_of : Text → Result F ℤ
  unfolding to_float bind read_int
  whole_of s = bind (to_float s) λ x. read_int (r.int_of_real x)

  -- `int(float(value)) if value is not None else None`
  unfoldable pub count_of : Option Text → Result F (Option ℤ)
  unfolding whole_of bind
  count_of none = ok none
  count_of (some s) = bind (whole_of s) λ n. ok (some n)

  unfoldable pub reset_of : (Text → Result F (Option F)) → Option Text → Result F (Option F)
  unfolding parse_reset
  reset_of until none = ok none
  reset_of until (some s) = parse_reset until s

  -- `headers.get("retry-after")`: None or an empty text is no hint
  unfoldable pub hint_of : Option Text → Result F (Option F)
  unfolding to_float bind
  hint_of none = ok none
  hint_of (some []) = ok none
  hint_of (some (c ∷ s)) = bind (to_float (c ∷ s)) λ x. ok (some x)

  unfoldable pub retry_after : Headers → Result F (Option F)
  unfolding hint_of
  retry_after h = hint_of (lookup (codes "retry-after") h)

  -- the budget of `_absorb`, once the remaining tokens are known to be reported
  unfoldable pub limits_with :
      (Text → Result F (Option F)) → Headers → Text → Result F (Option (Budget F))
  unfolding count_of reset_of grab bind whole_of
  limits_with until h tokens = bind (whole_of tokens) λ remaining.
      bind
        (count_of (
          grab
            (codes "x-ratelimit-remaining-requests"
              ∷ codes "anthropic-ratelimit-requests-remaining"
              ∷ [])
            h))
        λ requests.
          bind
            (reset_of until (
              grab
                (codes "x-ratelimit-reset-tokens" ∷ codes "anthropic-ratelimit-tokens-reset" ∷ [])
                h))
            λ reset.
              bind
                (reset_of until (
                  grab
                    (codes "x-ratelimit-reset-requests"
                      ∷ codes "anthropic-ratelimit-requests-reset"
                      ∷ [])
                    h))
                λ reset_requests.
                  bind (count_of (grab (codes "anthropic-ratelimit-input-tokens-remaining" ∷ []) h))
                    λ input.
                      bind
                        (count_of
                          (grab (codes "anthropic-ratelimit-output-tokens-remaining" ∷ []) h))
                        λ output.
                          bind
                            (count_of (
                              grab
                                (codes "x-ratelimit-limit-tokens"
                                  ∷ codes "anthropic-ratelimit-tokens-limit"
                                  ∷ [])
                                h))
                            λ limit. ok (
                              some (record {
                                remaining_tokens = remaining;
                                remaining_requests = requests;
                                reset_seconds = reset;
                                reset_requests_seconds = reset_requests;
                                remaining_input_tokens = input;
                                remaining_output_tokens = output;
                                limit_tokens = limit;
                                refill_regime = none;
                                remaining_seconds = none;
                              }))

  -- what the headers of a response say: nothing, unless they report the remaining tokens
  unfoldable pub limits_found :
      (Text → Result F (Option F)) → Headers → Option Text → Result F (Option (Budget F))
  unfolding limits_with
  limits_found until h none = ok none
  limits_found until h (some tokens) = limits_with until h tokens

  unfoldable pub limits_of : (Text → Result F (Option F)) → Headers → Result F (Option (Budget F))
  unfolding limits_found lowered grab
  limits_of until headers =
      let h = lowered [] headers in
      limits_found until h (
        grab
          (codes "x-ratelimit-remaining-tokens" ∷ codes "anthropic-ratelimit-tokens-remaining" ∷ [])
          h)
