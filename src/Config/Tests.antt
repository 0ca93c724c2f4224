-- ===== src/Config/Tests.antt =====
-- Strings that are parsed, and the theorems about them at a concrete string.
use nepenthes.Base.{ℕ, ◌+◌, ◌*◌, ◌≡◌, ◌≢◌, str_eq, refl, List, [], ◌∷◌, some, codes, inl, inr}
use nepenthes.Config.Tokens.{ok, running, is_alnum, is_key}
use nepenthes.Config.Tokens.Lexing.{text}
use nepenthes.Config.Objects.{
  ConfigItem, find_key, ItemList, nil, cons, val_string, val_string_list, val_item_list, load,
  entry,
}
use nepenthes.Config.Objects.Trees.{tokens, IsMap}
use nepenthes.Config.Objects.Paths.{here, inside, load-find_key}
use nepenthes.Config.Objects.Loading.{load-text, load-ends}

-- A stand-in for strtol() on two characters.
abbrev both : ℕ → ℕ → ℕ
both c d = c * 256 + d

-- A string, and an object that holds a list of two strings.
abbrev two_items : ItemList
two_items = cons (codes "a") (val_string (34 ∷ 92 ∷ [])) (
    cons (codes "b-c")
      (val_item_list (cons (codes "d") (val_string_list (codes "p" ∷ codes "q" ∷ [])) nil)) nil)

load-text_example : load both (text (tokens two_items [])) ≡ ok two_items
unfolding IsMap entry tokens is_alnum is_key str_eq
load-text_example =
    load-text both two_items (refl, tt, (refl, (refl, tt, tt), tt))
      ((refl, tt), ((refl, (refl, (refl, tt))), ((refl, tt), tt)))

-- A list that is never closed.
load-ends_example : load both (codes "a ( \"b\" ,") ≢ running
load-ends_example = load-ends both (codes "a ( \"b\" ,")

-- The name "b-c.d".
abbrev path : List (List ℕ)
path = codes "b-c" ∷ codes "d" ∷ []

abbrev two_strings : ConfigItem
two_strings = val_string_list (codes "p" ∷ codes "q" ∷ [])

load-find_key_example :
    (root : ItemList) × (load both (text (tokens two_items [])) ≡ ok root)
    × (find_key (some (val_item_list root)) path ≡ some two_strings)
unfolding IsMap entry tokens is_alnum is_key str_eq
load-find_key_example =
    load-find_key both two_items path two_strings (refl, tt, (refl, (refl, tt, tt), tt))
      ((refl, tt), ((refl, (refl, (refl, tt))), ((refl, tt), tt)))
      (inside two_items (codes "b-c") (val_item_list (cons (codes "d") two_strings nil))
        (codes "d" ∷ []) two_strings (inr (inl (refl, refl)))
        (inside (cons (codes "d") two_strings nil) (codes "d") two_strings [] two_strings
          (inl (refl, refl)) (here two_strings)))
