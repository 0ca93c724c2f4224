-- ===== src/Config/Tokens/Ends.antt =====
-- The lexer always ends: each turn of the loop of tokenize (nepenthes-core/src/Config.cpp) takes a
-- character.
use nepenthes.Base.{
  ℕ, zero, suc, ◌+◌, ◌≤◌, ◌<◌, ◌≡◌, refl, arith, ◌==◌, Bool, true, false, Bool-cases, inl, inr,
  List, [], ◌∷◌, length, Option, some, none, if◌then◌else◌,
}
use nepenthes.Config.{
  Measured, found, bad_escape, out_of_bounds, measure, plain, Reading, at_character, at_escape,
  at_digit, behind_digit, read, store, closed, refill, parse_string,
}
use nepenthes.Config.Tokens.{
  Token, paren_open, paren_close, braces_open, braces_close, semicolon, comma, key, Parse, ok,
  error, running, is_alnum, is_key, Skipping, between, slash, line, block, star, skip_ws, parse_key,
  Next, end, token, ignored, failed, string_token, push, turn, switch, next, tokenize,
}

extra : Skipping → ℕ
extra between = 0
extra slash = 1
extra line = 0
extra block = 0
extra star = 0

skip_ws-le : (place : Skipping) (s : List ℕ) → length (skip_ws place s) ≤ extra place + length s
unfolding skip_ws extra
skip_ws-le place [] = omega arith
skip_ws-le between (c ∷ s) = ground (arith, skip_ws-le between s, skip_ws-le slash s)
skip_ws-le slash (c ∷ s) = ground (arith, skip_ws-le line s, skip_ws-le block s)
skip_ws-le line (c ∷ s) = ground (arith, skip_ws-le line s, skip_ws-le between s)
skip_ws-le block (c ∷ s) = ground (arith, skip_ws-le star s, skip_ws-le block s)
skip_ws-le star (c ∷ s) =
    ground (arith, skip_ws-le between s, skip_ws-le star s, skip_ws-le block s)

between-le : (s : List ℕ) → length (skip_ws between s) ≤ length s
unfolding extra
between-le s = omega (arith, skip_ws-le between s)

parse_key-le : (s : List ℕ) → length (parse_key s).1 ≤ length s
unfolding parse_key
parse_key-le [] = omega arith
parse_key-le (c ∷ s) = elim (Bool-cases (is_key c)) [
  | inl e ↦ rw (e) (omega (arith, parse_key-le s))
  | inr e ↦ rw (e) (omega arith)
]

parse_key-lt : (c : ℕ) (s : List ℕ) → is_key c ≡ true → length (parse_key (c ∷ s)).1 ≤ length s
unfolding parse_key
parse_key-lt c s e = rw (e) (parse_key-le s)

either :
    {A : Type 0} (P : A → Type 0) (b : Bool) (x y : A)
    → ((b ≡ true) → P x)
    → P y
    → P (if b then x else y)
either P true x y h k = h refl
either P false x y h k = k

abbrev Leaves : ℕ → Option (List ℕ × List ℕ) → Type 0
Leaves n none = Unit
Leaves n (some (str, rest)) = length rest ≤ n

stored :
    (s : List ℕ) (c : ℕ) (r : Option (List ℕ × List ℕ))
    → Leaves (length s) r
    → Leaves (suc (length s)) (store c r)
unfolding store
stored s c none h = tt
stored s c (some (str, rest)) h = omega (arith, h)

longer :
    (s : List ℕ) (r : Option (List ℕ × List ℕ)) → Leaves (length s) r → Leaves (suc (length s)) r
longer s none h = tt
longer s (some (str, rest)) h = omega (arith, h)

abbrev Shortens : ℕ → Next → Type 0
Shortens n end = Unit
Shortens n (token t rest) = length rest < n
Shortens n (ignored rest) = length rest < n
Shortens n (failed e) = Unit

Shortens-more : (n m : ℕ) (x : Next) → n ≤ m → Shortens n x → Shortens m x
Shortens-more n m end p h = tt
Shortens-more n m (token t rest) p h = omega (arith, p, h)
Shortens-more n m (ignored rest) p h = omega (arith, p, h)
Shortens-more n m (failed e) p h = tt

-- How the loop ends on so many characters: with at most as many tokens, or with an error.
abbrev pub IsLexed : ℕ → Parse (List Token) → Type 0
IsLexed n (ok ts) = length ts ≤ n
IsLexed n (error e) = Unit
IsLexed n running = ⊥

push-IsLexed :
    (t : Token) (n m : ℕ) (p : Parse (List Token)) → n < m → IsLexed n p → IsLexed m (push t p)
unfolding push
push-IsLexed t n m (ok ts) h l = omega (arith, h, l)
push-IsLexed t n m (error e) h l = tt
push-IsLexed t n m running h l = absurd l

IsLexed-more : (n m : ℕ) (p : Parse (List Token)) → n ≤ m → IsLexed n p → IsLexed m p
IsLexed-more n m (ok ts) h l = omega (arith, h, l)
IsLexed-more n m (error e) h l = tt
IsLexed-more n m running h l = absurd l

turn-IsLexed :
    (loop : List ℕ → Parse (List Token)) (n : ℕ) (x : Next)
    → Shortens n x
    → ((rest : List ℕ) → length rest < n → IsLexed (length rest) (loop rest))
    → IsLexed n (turn loop x)
unfolding turn
turn-IsLexed loop n end h k = omega arith
turn-IsLexed loop n (token t rest) h k = push-IsLexed t (length rest) n (loop rest) h (k rest h)
turn-IsLexed loop n (ignored rest) h k =
    IsLexed-more (length rest) n (loop rest) (omega (arith, h)) (k rest h)
turn-IsLexed loop n (failed e) h k = tt

module _ (strtol : ℕ → ℕ → ℕ) where
  read-Leaves : (r : Reading) (n : ℕ) (s : List ℕ) → Leaves (length s) (read strtol r n s)
  unfolding read
  read-Leaves at_character zero [] = omega arith
  read-Leaves at_character (suc n) [] = tt
  read-Leaves at_escape n [] = tt
  read-Leaves at_digit n [] = tt
  read-Leaves (behind_digit d) n [] = tt
  read-Leaves at_character zero (c ∷ s) = omega arith
  read-Leaves at_character (suc n) (c ∷ s) =
      either (Leaves (suc (length s))) (c == 92) (read strtol at_escape n s)
        (store c (read strtol at_character n s))
        (λ e. longer s (read strtol at_escape n s) (read-Leaves at_escape n s))
        (stored s c (read strtol at_character n s) (read-Leaves at_character n s))
  read-Leaves at_escape n (c ∷ s) =
      either (Leaves (suc (length s))) (c == 48) (store 0 (read strtol at_character n s))
        (if c == 120 then read strtol at_digit n s else store c (read strtol at_character n s))
        (λ e. stored s 0 (read strtol at_character n s) (read-Leaves at_character n s))
        (either (Leaves (suc (length s))) (c == 120) (read strtol at_digit n s)
          (store c (read strtol at_character n s))
          (λ e. longer s (read strtol at_digit n s) (read-Leaves at_digit n s))
          (stored s c (read strtol at_character n s) (read-Leaves at_character n s)))
  read-Leaves at_digit n (c ∷ s) =
      longer s (read strtol (behind_digit c) n s) (read-Leaves (behind_digit c) n s)
  read-Leaves (behind_digit d) n (c ∷ s) =
      stored s (strtol d c) (read strtol at_character n s) (read-Leaves at_character n s)

  closed-Shortens :
      (n : ℕ) (r : Option (List ℕ × List ℕ))
      → Leaves n r
      → Shortens n (string_token (closed strtol r))
  unfolding closed string_token
  closed-Shortens n none h = tt
  closed-Shortens n (some (str, [])) h = tt
  closed-Shortens n (some (str, quote ∷ rest)) h = omega (arith, h)

  refill-Shortens :
      (s : List ℕ) (m : Measured) → Shortens (length s) (string_token (refill strtol s m))
  unfolding refill string_token
  refill-Shortens s (found len) =
      closed-Shortens (length s) (read strtol at_character len s) (read-Leaves at_character len s)
  refill-Shortens s bad_escape = tt
  refill-Shortens s out_of_bounds = tt

  string-Shortens : (s : List ℕ) → Shortens (suc (length s)) (string_token (parse_string strtol s))
  unfolding parse_string
  string-Shortens s =
      Shortens-more (length s) (suc (length s)) (string_token (refill strtol s (measure plain s)))
        (omega arith) (refill-Shortens s (measure plain s))

  key-lt : (c : ℕ) (s : List ℕ) → is_alnum c ≡ true → length (parse_key (c ∷ s)).1 < suc (length s)
  unfolding is_key
  key-lt c s e = omega (arith, parse_key-lt c s (rw (e)))

  switch-Shortens : (c : ℕ) (s : List ℕ) → Shortens (suc (length s)) (switch strtol c s)
  unfolding switch
  switch-Shortens c s =
      let P = Shortens (suc (length s)) in
      either P (c == 123) (token braces_open s) _ (λ e. omega arith)
        (either P (c == 125) (token braces_close s) _ (λ e. omega arith)
          (either P (c == 40) (token paren_open s) _ (λ e. omega arith)
            (either P (c == 41) (token paren_close s) _ (λ e. omega arith)
              (either P (c == 59) (token semicolon s) _ (λ e. omega arith)
                (either P (c == 44) (token comma s) _ (λ e. omega arith)
                  (either P (c == 34) (string_token (parse_string strtol s)) _
                    (λ e. string-Shortens s)
                    (either P (is_alnum c) (token (key (parse_key (c ∷ s)).0) (parse_key (c ∷ s)).1)
                      (ignored s) (λ e. key-lt c s e) (omega arith))))))))

  next-Shortens : (s : List ℕ) → Shortens (length s) (next strtol s)
  unfolding next
  next-Shortens [] = tt
  next-Shortens (c ∷ s) = switch-Shortens c s

  -- Whatever the text, the loop ends if its fuel is more than the number of the characters, and makes at
  -- most a token of each of them.
  pub tokenize-IsLexed :
      (fuel : ℕ) (s : List ℕ) → length s < fuel → IsLexed (length s) (tokenize strtol fuel s)
  unfolding tokenize
  tokenize-IsLexed zero s p = absurd (omega (arith, p))
  tokenize-IsLexed (suc fuel) s p =
      turn-IsLexed (tokenize strtol fuel) (length s) (next strtol (skip_ws between s))
        (Shortens-more (length (skip_ws between s)) (length s) (next strtol (skip_ws between s))
          (between-le s) (next-Shortens (skip_ws between s)))
        (λ rest q. tokenize-IsLexed fuel rest (omega (arith, p, q)))
