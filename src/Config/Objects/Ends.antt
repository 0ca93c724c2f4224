-- ===== src/Config/Objects/Ends.antt =====
-- The parser always ends: each turn of readObject (nepenthes-core/src/Config.cpp) takes a token.
use nepenthes.Base.{ℕ, zero, suc, ◌≤◌, ◌<◌, arith, Bool, true, false, List, [], ◌∷◌, length}
use nepenthes.Config.Tokens.{
  Token, paren_open, paren_close, braces_open, braces_close, semicolon, comma, key, string, Parse,
  ok, error, running, ◌>>=◌,
}
use nepenthes.Config.Objects.{
  val_string_list, val_item_list, ItemList, nil, assign, read_strings, close_object, read_value,
  read_object,
}

-- How reading ends on so many tokens: with no more of them left, or with an error.
abbrev pub IsOver : {A : Type 0} → ℕ → Parse (A × List Token) → Type 0
IsOver n (ok (a, ts)) = length ts ≤ n
IsOver n (error e) = Unit
IsOver n running = ⊥

then-IsOver :
    {A B : Type 0} (n m : ℕ) (p : Parse (A × List Token))
    (f : A × List Token → Parse (B × List Token))
    → IsOver n p
    → ((a : A) (ts : List Token) → length ts ≤ n → IsOver m (f (a, ts)))
    → IsOver m (p >>= f)
then-IsOver n m (ok (a, ts)) f h k = k a ts h
then-IsOver n m (error e) f h k = tt
then-IsOver n m running f h k = absurd h

read_strings-IsOver : (ts : List Token) → IsOver (length ts) (read_strings ts)
unfolding read_strings
read_strings-IsOver [] = omega arith
read_strings-IsOver (string s ∷ []) = tt
read_strings-IsOver (string s ∷ comma ∷ ts) =
    then-IsOver (length ts) (suc (suc (length ts))) (read_strings ts) (λ r. ok (s ∷ r.0, r.1))
      (read_strings-IsOver ts) (λ a us h. omega (arith, h))
read_strings-IsOver (string s ∷ t ∷ ts) =
    then-IsOver (suc (length ts)) (suc (suc (length ts))) (read_strings (t ∷ ts))
      (λ r. ok (s ∷ r.0, r.1)) (read_strings-IsOver (t ∷ ts)) (λ a us h. omega (arith, h))
read_strings-IsOver (paren_close ∷ []) = tt
read_strings-IsOver (paren_close ∷ semicolon ∷ ts) = omega arith
read_strings-IsOver (paren_close ∷ t ∷ ts) = tt
read_strings-IsOver (t ∷ ts) = tt

read_value-IsOver :
    (object : List Token → Parse (ItemList × List Token)) (ts : List Token)
    → ((us : List Token) → length us < length ts → IsOver (length us) (object us))
    → IsOver (length ts) (read_value object ts)
unfolding read_value
read_value-IsOver object [] h = tt
read_value-IsOver object (string s ∷ []) h = tt
read_value-IsOver object (string s ∷ semicolon ∷ ts) h = omega arith
read_value-IsOver object (string s ∷ t ∷ ts) h = tt
read_value-IsOver object (paren_open ∷ ts) h =
    then-IsOver (length ts) (suc (length ts)) (read_strings ts) (λ r. ok (val_string_list r.0, r.1))
      (read_strings-IsOver ts) (λ a us p. omega (arith, p))
read_value-IsOver object (braces_open ∷ ts) h =
    then-IsOver (length ts) (suc (length ts)) (object ts) (λ r. ok (val_item_list r.0, r.1))
      (h ts (omega arith)) (λ a us p. omega (arith, p))
read_value-IsOver object (t ∷ ts) h = tt

close-IsOver :
    (items : ItemList) (ts : List Token) → IsOver (suc (length ts)) (close_object items ts)
unfolding close_object
close-IsOver items [] = tt
close-IsOver items (semicolon ∷ ts) = omega arith
close-IsOver items (t ∷ ts) = tt

weaken : {A : Type 0} (n m : ℕ) (p : Parse (A × List Token)) → n ≤ m → IsOver n p → IsOver m p
weaken n m (ok (a, ts)) h w = omega (arith, h, w)
weaken n m (error e) h w = tt
weaken n m running h w = absurd w

-- However the tokens stand, the parser ends if its fuel is more than their number, and never goes back:
-- it leaves at most the tokens that it was given.
pub read_object-IsOver :
    (fuel : ℕ) (root : Bool) (items : ItemList) (ts : List Token)
    → length ts < fuel
    → IsOver (length ts) (read_object fuel root items ts)
unfolding read_object
read_object-IsOver zero root items ts p = absurd (omega (arith, p))
read_object-IsOver (suc fuel) true items [] p = omega arith
read_object-IsOver (suc fuel) false items [] p = tt
read_object-IsOver (suc fuel) root items (key k ∷ ts) p =
    then-IsOver (length ts) (suc (length ts)) (read_value (read_object fuel false nil) ts)
      (λ r. read_object fuel root (assign items k r.0) r.1)
      (read_value-IsOver (read_object fuel false nil) ts
        (λ us q. read_object-IsOver fuel false nil us (omega (arith, p, q))))
      (λ v us q.
        weaken (length us) (suc (length ts)) (read_object fuel root (assign items k v) us)
          (omega (arith, q))
          (read_object-IsOver fuel root (assign items k v) us (omega (arith, p, q))))
read_object-IsOver (suc fuel) true items (braces_close ∷ ts) p = tt
read_object-IsOver (suc fuel) false items (braces_close ∷ ts) p = close-IsOver items ts
read_object-IsOver (suc fuel) root items (t ∷ ts) p = tt
