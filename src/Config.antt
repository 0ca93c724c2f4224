-- ===== src/Config.antt =====
-- The quoted strings of the configuration file: Config::parseString of nepenthes-core/src/Config.cpp.
-- A CharField is the list of the characters that are left; to go back is to take the list from before.
-- strtol() on two hexadecimal digits is a parameter.
pub mod Strings
pub mod Passes
pub mod Tokens
pub mod Objects
mod Tests
use nepenthes.Base.{
  ℕ, zero, suc, ◌==◌, if◌then◌else◌, not, Bool, true, false, ◌||◌, List, [], ◌∷◌, drop, Option,
  some, none,
}

-- How parseString ends: with the string and what stands behind its closing quote, or by one of its two
-- parse errors.
pub data Parsed : Type 0 where
  parsed : List ℕ → List ℕ → Parsed
  invalid_escape premature_end : Parsed

-- Where the first pass stands: between characters, behind a backslash, or before a hexadecimal digit.
pub data Place : Type 0 where
  plain escape first_digit second_digit : Place

-- What the first pass finds: the length of the string.
pub data Measured : Type 0 where
  found : ℕ → Measured
  bad_escape out_of_bounds : Measured

pub one_more : Measured → Measured
one_more (found n) = found (suc n)
one_more bad_escape = bad_escape
one_more out_of_bounds = out_of_bounds

-- '0', '"', '\' or 'x'
pub may_follow : ℕ → Bool
may_follow c = c == 48 || c == 34 || c == 92 || c == 120

-- The first pass counts the characters up to the closing quote.
pub measure : Place → List ℕ → Measured
measure place [] = out_of_bounds
measure plain (c ∷ s) =
    let escaped = measure escape s in
    let rest = measure plain s in
    if c == 92 then escaped else (if c == 34 then found 0 else one_more rest)
measure escape (c ∷ s) =
    let digits = measure first_digit s in
    let rest = measure plain s in
    if not (may_follow c) then bad_escape else one_more (if c == 120 then digits else rest)
measure first_digit (c ∷ s) = measure second_digit s
measure second_digit (c ∷ s) = measure plain s

pub store : ℕ → Option (List ℕ × List ℕ) → Option (List ℕ × List ℕ)
store c none = none
store c (some (str, rest)) = some (c ∷ str, rest)

-- The second pass; behind the first of two digits it holds that digit.
pub data Reading : Type 0 where
  at_character at_escape at_digit : Reading
  behind_digit : ℕ → Reading

module _ (strtol : ℕ → ℕ → ℕ) where
  -- It reads as many characters as were counted, and what is left; `none` if there are too few.
  pub read : Reading → ℕ → List ℕ → Option (List ℕ × List ℕ)
  read at_character zero [] = some ([], [])
  read at_character (suc n) [] = none
  read at_escape n [] = none
  read at_digit n [] = none
  read (behind_digit d) n [] = none
  read at_character zero (c ∷ s) = some ([], c ∷ s)
  read at_character (suc n) (c ∷ s) =
      let escaped = read at_escape n s in
      let rest = read at_character n s in if c == 92 then escaped else store c rest
  read at_escape n (c ∷ s) =
      let digits = read at_digit n s in
      let rest = read at_character n s in
      if c == 48 then store 0 rest else (if c == 120 then digits else store c rest)
  read at_digit n (c ∷ s) = read (behind_digit c) n s
  read (behind_digit d) n (c ∷ s) = store (strtol d c) (read at_character n s)

  -- The closing quote is taken off last.
  pub closed : Option (List ℕ × List ℕ) → Parsed
  closed none = premature_end
  closed (some (str, [])) = premature_end
  closed (some (str, quote ∷ rest)) = parsed str rest

  pub refill : List ℕ → Measured → Parsed
  refill s (found len) = closed (read at_character len s)
  refill s bad_escape = invalid_escape
  refill s out_of_bounds = premature_end

  pub parse_string : List ℕ → Parsed
  parse_string s = refill s (measure plain s)
