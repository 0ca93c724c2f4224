-- ===== src/Config/Objects/Loading.antt =====
-- A configuration that is written and loaded: tokenize and readObject together, as in Config::load of
-- nepenthes-core/src/Config.cpp.
use nepenthes.Base.{ℕ, suc, ◌≡◌, ◌≢◌, arith, List, [], length, true}
use nepenthes.Config.Tokens.{Token, Parse, ok, error, running, ◌>>=◌, tokenize}
use nepenthes.Config.Tokens.Lexing.{text, AreNamed, tokenize-text, text_long}
use nepenthes.Config.Tokens.Ends.{IsLexed, tokenize-IsLexed}
use nepenthes.Config.Objects.{ItemList, nil, read_object, load}
use nepenthes.Config.Objects.Trees.{tokens, IsMap, read_object-tokens}
use nepenthes.Config.Objects.Ends.{IsOver, read_object-IsOver}

parsed : (n : ℕ) (p : Parse (ItemList × List Token)) → IsOver n p → (p >>= (λ r. ok r.0)) ≢ running
parsed n (ok r) h = λ e. cc
parsed n (error x) h = λ e. cc
parsed n running h = absurd h

lexed :
    (n : ℕ) (p : Parse (List Token))
    → IsLexed n p
    → (p >>= (λ ts. read_object (suc (length ts)) true nil ts >>= (λ r. ok r.0))) ≢ running
lexed n (ok ts) h =
    let fuel = suc (length ts) in
    parsed (length ts) (read_object fuel true nil ts)
      (read_object-IsOver fuel true nil ts (omega arith))
lexed n (error x) h = λ e. cc
lexed n running h = absurd h

module _ (strtol : ℕ → ℕ → ℕ) where
  -- A tree of items, in which no object has two items of one name and each name begins with a letter or
  -- a digit and has only letters, digits, `-` and `_`, is loaded as it is from its text: its tokens with
  -- a space behind each and the strings quoted.
  pub load-text :
      (items : ItemList)
      → IsMap nil items
      → AreNamed (tokens items [])
      → load strtol (text (tokens items [])) ≡ ok items
  unfolding load
  load-text items m w =
      let ts = tokens items [] in
      rw (
        tokenize-text strtol ts (suc (length (text ts))) w (omega (arith, text_long ts)),
        read_object-tokens items (suc (length ts)) m (omega arith),
      )

  -- The model's fuel is enough for any text: loading ends with a tree or with an error.
  pub load-ends : (s : List ℕ) → load strtol s ≢ running
  unfolding load
  load-ends s =
      lexed (length s) (tokenize strtol (suc (length s)) s)
        (tokenize-IsLexed strtol (suc (length s)) s (omega arith))
