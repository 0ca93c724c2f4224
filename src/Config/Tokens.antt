-- ===== src/Config/Tokens.antt =====
-- The lexer of nepenthes-core/src/Config.cpp: skipWS, parseKey and the loop of tokenize. isspace(),
-- isalpha() and isdigit() are those of the C locale. The line numbers of tokens and errors are left
-- out.
pub mod Lexing
pub mod Ends
use nepenthes.Base.{
  ℕ, zero, suc, ◌==◌, leb, if◌then◌else◌, Bool, true, false, ◌&&◌, ◌||◌, List, [], ◌∷◌, length,
}
use nepenthes.Config.{Parsed, parsed, invalid_escape, premature_end, parse_string}

pub data Token : Type 0 where
  paren_open paren_close braces_open braces_close semicolon comma : Token
  key string : List ℕ → Token

-- The messages of a ParseError.
pub data ParseError : Type 0 where
  bad_escape_sequence premature_string_end unexpected_end : ParseError
  braces_on_root semicolon_after_braces key_expected : ParseError
  semicolon_after_string semicolon_after_paren string_or_paren_expected value_expected : ParseError

-- `running` is the end of the model's fuel.
pub data Parse (A : Type 0) : Type 0 where
  ok : A → Parse A
  error : ParseError → Parse A
  running : Parse A

infixl 5 ◌>>=◌
abbrev pub ◌>>=◌ : {A B : Type 0} → Parse A → (A → Parse B) → Parse B
ok a >>= f = f a
error e >>= f = error e
running >>= f = running

pub is_space : ℕ → Bool
is_space c = c == 32 || (leb 9 c && leb c 13)

unfoldable pub is_alnum : ℕ → Bool
is_alnum c = (leb 97 c && leb c 122) || ((leb 65 c && leb c 90) || (leb 48 c && leb c 57))

-- What parseKey takes into a key.
unfoldable pub is_key : ℕ → Bool
unfolding is_alnum
is_key c = is_alnum c || (c == 45 || c == 95)

-- Where skipWS stands: between tokens, behind a slash, in a comment to the end of the line, in one
-- that is closed, behind a star in that.
pub data Skipping : Type 0 where
  between slash line block star : Skipping

-- What is left when the white space is skipped. A comment that does not end reaches the end.
pub skip_ws : Skipping → List ℕ → List ℕ
skip_ws place [] = []
skip_ws between (c ∷ s) =
    let rest = skip_ws between s in
    let commented = skip_ws slash s in
    if is_space c then rest else (if c == 47 then commented else c ∷ s)
skip_ws slash (c ∷ s) =
    let in_line = skip_ws line s in
    let in_block = skip_ws block s in
    if c == 47 then in_line else (if c == 42 then in_block else 47 ∷ c ∷ s)
skip_ws line (c ∷ s) =
    let ended = skip_ws between s in let rest = skip_ws line s in if c == 10 then ended else rest
skip_ws block (c ∷ s) =
    let starred = skip_ws star s in let rest = skip_ws block s in if c == 42 then starred else rest
skip_ws star (c ∷ s) =
    let ended = skip_ws between s in
    let starred = skip_ws star s in
    let rest = skip_ws block s in if c == 47 then ended else (if c == 42 then starred else rest)

-- The longest key that the text begins with, and what is behind it.
pub parse_key : List ℕ → List ℕ × List ℕ
parse_key [] = ([], [])
parse_key (c ∷ s) =
    let (word, rest) = parse_key s in if is_key c then (c ∷ word, rest) else ([], c ∷ s)

pub data Next : Type 0 where
  end : Next
  token : Token → List ℕ → Next
  ignored : List ℕ → Next
  failed : ParseError → Next

pub string_token : Parsed → Next
string_token (parsed str rest) = token (string str) rest
string_token invalid_escape = failed bad_escape_sequence
string_token premature_end = failed premature_string_end

pub push : Token → Parse (List Token) → Parse (List Token)
push t (ok ts) = ok (t ∷ ts)
push t (error e) = error e
push t running = running

-- A turn of the loop; `loop` is those behind it.
pub turn : (List ℕ → Parse (List Token)) → Next → Parse (List Token)
turn loop end = ok []
turn loop (token t rest) = push t (loop rest)
turn loop (ignored rest) = loop rest
turn loop (failed e) = error e

module _ (strtol : ℕ → ℕ → ℕ) where
  -- The switch on the first character behind the white space.
  pub switch : ℕ → List ℕ → Next
  switch c s =
      if c == 123
      then token braces_open s
      else (if c == 125
          then token braces_close s
          else (if c == 40
              then token paren_open s
              else (if c == 41
                  then token paren_close s
                  else (if c == 59
                      then token semicolon s
                      else (if c == 44
                          then token comma s
                          else (if c == 34
                              then string_token (parse_string strtol s)
                              else (if is_alnum c
                                  then token (key (parse_key (c ∷ s)).0) (parse_key (c ∷ s)).1
                                  else ignored s)))))))

  pub next : List ℕ → Next
  next [] = end
  next (c ∷ s) = switch c s

  pub tokenize : ℕ → List ℕ → Parse (List Token)
  tokenize zero s = running
  tokenize (suc fuel) s = turn (tokenize fuel) (next (skip_ws between s))
