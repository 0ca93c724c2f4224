-- ===== src/Config/Tokens/Lexing.antt =====
-- The lexer reads written tokens back: skipWS, parseKey and tokenize of nepenthes-core/src/Config.cpp.
use nepenthes.Base.{
  ℕ, zero, suc, ◌≤◌, ◌<◌, ◌≡◌, refl, ap, sym, ◌∙◌, Bool-cases, inl, inr, arith, ◌==◌, Bool, true,
  false, List, [], ◌∷◌, ◌++◌, length,
}
use nepenthes.Config.Strings.{equals, quoted, parse_string-quoted}
use nepenthes.Config.Tokens.{
  Token, paren_open, paren_close, braces_open, braces_close, semicolon, comma, key, string, ok,
  is_space, is_alnum, is_key, between, skip_ws, parse_key, token, string_token, push, turn, switch,
  next, tokenize,
}

-- A token as a text, with what follows it; a string is quoted.
abbrev pub write : Token → List ℕ → List ℕ
write paren_open rest = 40 ∷ rest
write paren_close rest = 41 ∷ rest
write braces_open rest = 123 ∷ rest
write braces_close rest = 125 ∷ rest
write semicolon rest = 59 ∷ rest
write comma rest = 44 ∷ rest
write (key k) rest = k ++ rest
write (string s) rest = 34 ∷ (quoted s ++ (34 ∷ rest))

-- The tokens with a space behind each of them.
abbrev pub text : List Token → List ℕ
text [] = []
text (t ∷ ts) = write t (32 ∷ text ts)

abbrev pub AreKeys : List ℕ → Type 0
AreKeys [] = Unit
AreKeys (c ∷ s) = (is_key c ≡ true) × AreKeys s

-- A name: a letter or a digit, then characters of a key.
abbrev pub IsName : List ℕ → Type 0
IsName [] = ⊥
IsName (c ∷ s) = (is_alnum c ≡ true) × AreKeys s

-- Each key among the tokens is a name.
abbrev pub AreNamed : List Token → Type 0
AreNamed [] = Unit
AreNamed (key k ∷ ts) = IsName k × AreNamed ts
AreNamed (t ∷ ts) = AreNamed ts

never_both : (b : Bool) → b ≡ true → b ≡ false → ⊥
never_both b t f = cc

not_alnum : (a c : ℕ) → is_alnum a ≡ false → is_alnum c ≡ true → (c == a) ≡ false
not_alnum a c n e = elim (Bool-cases (c == a)) [
  | inl q ↦ absurd (never_both (is_alnum c) e (ap is_alnum (sym (equals a c q)) ∙ n))
  | inr q ↦ q
]

space_false : (c : ℕ) → is_alnum c ≡ true → is_space c ≡ false
unfolding is_alnum is_space
space_false c e = ground (arith, e)

is_key-alnum : (c : ℕ) → is_alnum c ≡ true → is_key c ≡ true
unfolding is_key
is_key-alnum c e = rw (e)

space_ends : is_key 32 ≡ false
unfolding is_key is_alnum
space_ends = refl

parse_key-append : (k rest : List ℕ) → AreKeys k → parse_key (k ++ (32 ∷ rest)) ≡ (k, 32 ∷ rest)
unfolding parse_key
parse_key-append [] rest h = rw (space_ends)
parse_key-append (c ∷ k) rest (e, h) = rw (e, parse_key-append k rest h)

tokenize_space :
    (strtol : ℕ → ℕ → ℕ) (fuel : ℕ) (s : List ℕ)
    → tokenize strtol fuel (32 ∷ s) ≡ tokenize strtol fuel s
unfolding tokenize next skip_ws is_space
tokenize_space strtol zero s = refl
tokenize_space strtol (suc fuel) s = refl

skip_ws-alnum : (c : ℕ) (s : List ℕ) → is_alnum c ≡ true → skip_ws between (c ∷ s) ≡ c ∷ s
unfolding skip_ws is_alnum
skip_ws-alnum c s e = rw (space_false c e, not_alnum 47 c refl e)

others : (t : Token) (ts : List Token) → AreNamed (t ∷ ts) → AreNamed ts
others (key k) ts (h, w) = w
others t ts w = w

module _ (strtol : ℕ → ℕ → ℕ) where
  switch-alnum :
      (c : ℕ) (s : List ℕ)
      → is_alnum c ≡ true
      → switch strtol c s ≡ token (key (parse_key (c ∷ s)).0) (parse_key (c ∷ s)).1
  unfolding switch is_alnum
  switch-alnum c s e = rw (
    not_alnum 123 c refl e,
    not_alnum 125 c refl e,
    not_alnum 40 c refl e,
    not_alnum 41 c refl e,
    not_alnum 59 c refl e,
    not_alnum 44 c refl e,
    not_alnum 34 c refl e,
    e,
  )

  next-name :
      (k rest : List ℕ)
      → IsName k
      → next strtol (skip_ws between (k ++ (32 ∷ rest))) ≡ token (key k) (32 ∷ rest)
  unfolding next
  next-name [] rest h = absurd h
  next-name (c ∷ k) rest (e, h) = rw (
    skip_ws-alnum c (k ++ (32 ∷ rest)) e,
    switch-alnum c (k ++ (32 ∷ rest)) e,
    parse_key-append (c ∷ k) rest (is_key-alnum c e, h),
  )

  next-string :
      (s rest : List ℕ)
      → next strtol (skip_ws between (write (string s) rest)) ≡ token (string s) rest
  unfolding next switch skip_ws is_space string_token
  next-string s rest = rw (parse_string-quoted strtol s rest)

  tokenize-token :
      (fuel : ℕ) (s rest : List ℕ) (t : Token)
      → next strtol (skip_ws between s) ≡ token t rest
      → tokenize strtol (suc fuel) s ≡ push t (tokenize strtol fuel rest)
  unfolding tokenize turn
  tokenize-token fuel s rest t e = rw (e)

  next-write :
      (t : Token) (ts : List Token) (rest : List ℕ)
      → AreNamed (t ∷ ts)
      → next strtol (skip_ws between (write t (32 ∷ rest))) ≡ token t (32 ∷ rest)
  unfolding next switch skip_ws is_space
  next-write (key k) ts rest (h, w) = next-name k rest h
  next-write (string s) ts rest h = next-string s (32 ∷ rest)
  next-write t ts rest h = refl

  -- Tokens that are written with a space behind each, their names being names, are read back, if the
  -- fuel is more than their number.
  pub tokenize-text :
      (ts : List Token) (fuel : ℕ)
      → AreNamed ts
      → length ts < fuel
      → tokenize strtol fuel (text ts) ≡ ok ts
  unfolding tokenize turn next skip_ws push
  tokenize-text ts zero h p = absurd (omega (arith, p))
  tokenize-text [] (suc fuel) h p = refl
  tokenize-text (t ∷ ts) (suc fuel) h p = rw (
    tokenize-token fuel (text (t ∷ ts)) (32 ∷ text ts) t (next-write t ts (text ts) h),
    tokenize_space strtol fuel (text ts),
    tokenize-text ts fuel (others t ts h) (omega (arith, p)),
  )

append_le : (s t : List ℕ) → length t ≤ length (s ++ t)
append_le [] t = omega arith
append_le (c ∷ s) t = omega (arith, append_le s t)

write-le : (t : Token) (rest : List ℕ) → length rest ≤ length (write t rest)
write-le (key k) rest = append_le k rest
write-le (string s) rest = omega (arith, append_le (quoted s) (34 ∷ rest))
write-le t rest = omega arith

pub text_long : (ts : List Token) → length ts ≤ length (text ts)
text_long [] = omega arith
text_long (t ∷ ts) = omega (arith, text_long ts, write-le t (32 ∷ text ts))
