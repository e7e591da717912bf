-- ===== src/Market/Pattern.antt =====
-- `slug_to_pattern` of polytrader/store.py: the regular expression `^(.+)-\d+$`, matched the way
-- `re` does it. `.` is any character but a newline, `$` is the end of the text or the place before
-- a newline that ends it, and `.+` takes as much as it can. `is_decimal` is Unicode's category Nd,
-- which `\d` asks for.
use Prim.Native.Char.{Char, code}
use polytrader.Prelude.{
  ℕ, String, ◌≡◌, refl, Bool, true, false, not, ◌&&◌, Option, none, some, leb, arith, if◌then◌else◌,
}
use Prim.Native.String.{◌++◌}
use Prim.Native.String.append

abbrev is_code : ℕ → Char → Bool
is_code n c = leb n (code c) && leb (code c) n

abbrev pub is_newline : Char → Bool
is_newline c = is_code 10 c

abbrev pub is_dash : Char → Bool
is_dash c = is_code 45 c

abbrev pub is_empty : String → Bool
is_empty String.[] = true
is_empty (String.◌∷◌ c s) = false

module _ (is_decimal : Char → Bool) where
  -- `\d*$` matches the whole text.
  unfoldable pub matches_digits : String → Bool
  matches_digits String.[] = true
  matches_digits (String.◌∷◌ c s) =
      if is_decimal c then matches_digits s else is_newline c && is_empty s

  -- `\d+$` matches the whole text.
  abbrev matches_number : String → Bool
  matches_number String.[] = false
  matches_number (String.◌∷◌ c s) = is_decimal c && matches_digits s

  -- `-\d+$` matches the whole text.
  unfoldable pub matches_suffix : String → Bool
  matches_suffix String.[] = false
  matches_suffix (String.◌∷◌ c s) = is_dash c && matches_number s

  -- One more character of `.+` before the match of the rest, or the first one before the suffix.
  abbrev extend : Char → Bool → Option String → Option String
  extend c last (some p) = some (String.◌∷◌ c p)
  extend c last none = if last then some (String.◌∷◌ c String.[]) else none

  -- `match.group(1)` of the greedy match, if there is one.
  unfoldable pub match_pattern : String → Option String
  match_pattern String.[] = none
  match_pattern (String.◌∷◌ c s) =
      let rest = match_pattern s in if is_newline c then none else extend c (matches_suffix s) rest

  abbrev pub slug_to_pattern : String → String
  slug_to_pattern s = elim (match_pattern s) [ some p ↦ p | none ↦ s ]

  -- The text holds no newline.
  abbrev pub is_line : String → Bool
  is_line String.[] = true
  is_line (String.◌∷◌ c s) = not (is_newline c) && is_line s

  -- Every character is a decimal digit.
  abbrev pub is_digits : String → Bool
  is_digits String.[] = true
  is_digits (String.◌∷◌ c s) = is_decimal c && is_digits s

  digits-match : (d : String) → is_digits d ≡ true → matches_digits d ≡ true
  unfolding matches_digits
  digits-match String.[] h = refl
  digits-match (String.◌∷◌ c s) h = ground (arith, digits-match s (ground (arith, h)), h)

  -- `is_decimal` holds of no dash and no newline.
  abbrev pub IsDecimalTest : Type 0
  IsDecimalTest = (c : Char) → is_decimal c ≡ true → (is_dash c ≡ false) × (is_newline c ≡ false)

  -- Digits alone do not match.
  match-digits : IsDecimalTest → (d : String) → is_digits d ≡ true → match_pattern d ≡ none
  unfolding match_pattern matches_suffix
  match-digits dec String.[] h = refl
  match-digits dec (String.◌∷◌ c String.[]) h = ground (arith, h)
  match-digits dec (String.◌∷◌ c (String.◌∷◌ b s)) h =
      let rest = match-digits dec (String.◌∷◌ b s) (ground (arith, h)) in
      ground (arith, rest, h, dec b)

  -- The suffix is no match by itself, since a pattern has a character before it.
  match-suffix :
      IsDecimalTest → (d : String) → is_digits d ≡ true → match_pattern (String.◌∷◌ "-" d) ≡ none
  unfolding match_pattern matches_suffix
  match-suffix dec String.[] h = refl
  match-suffix dec (String.◌∷◌ c s) h =
      ground (arith, match-digits dec (String.◌∷◌ c s) h, h, dec c)

  suffix-match :
      (d : String)
      → is_digits d ≡ true
      → is_empty d ≡ false
      → matches_suffix (String.◌∷◌ "-" d) ≡ true
  unfolding matches_suffix
  suffix-match String.[] h e = ground (arith, e)
  suffix-match (String.◌∷◌ c s) h e = ground (arith, h, digits-match s (ground (arith, h)))

  -- The match of a pattern, a dash and a number is the pattern.
  match_pattern-join :
      IsDecimalTest
      → (p d : String) → is_line p ≡ true
      → is_empty p ≡ false
      → is_digits d ≡ true
      → is_empty d ≡ false
      → match_pattern (p ++ ("-" ++ d)) ≡ some p
  unfolding match_pattern
  match_pattern-join dec String.[] d l n h e = ground (arith, n)
  match_pattern-join dec (String.◌∷◌ c String.[]) d l n h e =
      rw
        (
          append.cons c String.[] ("-" ++ d),
          append.nil ("-" ++ d),
          append.cons "-" String.[] d,
          append.nil d,
        )
        (ground (arith, match-suffix dec d h, suffix-match d h e, l))
  match_pattern-join dec (String.◌∷◌ c (String.◌∷◌ b s)) d l n h e =
      let rest = match_pattern-join dec (String.◌∷◌ b s) d (ground (arith, l)) refl h e in
      rw (append.cons c (String.◌∷◌ b s) ("-" ++ d)) (ground (arith, rest, l))

  -- The pattern of a slug that joins a pattern and a number by a dash is that pattern, where the
  -- pattern is not empty and holds no newline, and the number is one or more decimal digits.
  pub slug_to_pattern-join :
      IsDecimalTest
      → (p d : String) → is_line p ≡ true
      → is_empty p ≡ false
      → is_digits d ≡ true
      → is_empty d ≡ false
      → slug_to_pattern (p ++ ("-" ++ d)) ≡ p
  slug_to_pattern-join dec p d l n h e = ground (arith, match_pattern-join dec p d l n h e)
