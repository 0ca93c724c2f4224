-- ===== src/Config/Objects/Trees.antt =====
-- The parser reads the tokens of a tree back as that tree: readObject of
-- nepenthes-core/src/Config.cpp.
use nepenthes.Base.{
  ℕ, zero, suc, ◌+◌, ◌-◌, ◌≤◌, ◌<◌, ◌≡◌, refl, ap, ◌∙◌, sym, arith, Bool, true, false, List, [],
  ◌∷◌, length, Bool-cases, inl, inr, none, str_eq,
}
use nepenthes.Config.Tokens.{
  Token, paren_open, paren_close, braces_open, braces_close, semicolon, comma, key, string, ok,
}
use nepenthes.Config.Objects.{
  ConfigItem, val_string, val_string_list, val_item_list, ItemList, nil, cons, assign, read_strings,
  close_object, read_value, read_object, entry,
}

-- The tokens of a list of strings, with what follows it.
abbrev pub strings_tokens : List (List ℕ) → List Token → List Token
strings_tokens [] rest = paren_close ∷ semicolon ∷ rest
strings_tokens (s ∷ []) rest = string s ∷ paren_close ∷ semicolon ∷ rest
strings_tokens (s ∷ r ∷ ss) rest = string s ∷ comma ∷ strings_tokens (r ∷ ss) rest

-- The tokens of a tree, with what follows it.
unfoldable mutual
  pub tokens : ItemList → List Token → List Token
  tokens nil rest = rest
  tokens (cons k v items) rest = key k ∷ value_tokens v (tokens items rest)

  pub value_tokens : ConfigItem → List Token → List Token
  value_tokens (val_string s) rest = string s ∷ semicolon ∷ rest
  value_tokens (val_string_list ss) rest = paren_open ∷ strings_tokens ss rest
  value_tokens (val_item_list items) rest =
      braces_open ∷ tokens items (braces_close ∷ semicolon ∷ rest)

abbrev pub snoc : ItemList → List ℕ → ConfigItem → ItemList
snoc nil k v = cons k v nil
snoc (cons j w items) k v = cons j w (snoc items k v)

abbrev join : ItemList → ItemList → ItemList
join nil more = more
join (cons j w items) more = cons j w (join items more)

-- The items have different names, which are none of those in `before`, and so have the items of each
-- object among them.
unfoldable mutual
  pub IsMap : ItemList → ItemList → Type 0
  IsMap before nil = Unit
  IsMap before (cons k v items) = (entry k before ≡ none) × IsTree v × IsMap (snoc before k v) items

  pub IsTree : ConfigItem → Type 0
  IsTree (val_string s) = Unit
  IsTree (val_string_list ss) = Unit
  IsTree (val_item_list items) = IsMap nil items

-- How deep a tree is, in recursive calls and turns of the loop.
unfoldable mutual
  size : ItemList → ℕ
  size nil = 0
  size (cons k v items) = suc (value_size v + size items)

  value_size : ConfigItem → ℕ
  value_size (val_string s) = 0
  value_size (val_string_list ss) = 0
  value_size (val_item_list items) = suc (size items)

pub entry_behind :
    (items : ItemList) (k j : List ℕ) (w : ConfigItem)
    → str_eq j k ≡ false
    → entry k (cons j w items) ≡ entry k items
unfolding entry
entry_behind items k j w q = rw (q)

assign-snoc :
    (items : ItemList) (k : List ℕ) (v : ConfigItem)
    → entry k items ≡ none
    → assign items k v ≡ snoc items k v
unfolding assign entry
assign-snoc nil k v e = refl
assign-snoc (cons j w items) k v e = elim (Bool-cases (str_eq j k)) [
  | inl q ↦ ground (arith, q, e)
  | inr q ↦ rw (q, assign-snoc items k v (sym (entry_behind items k j w q) ∙ e))
]

join-snoc :
    (before items : ItemList) (k : List ℕ) (v : ConfigItem)
    → join (snoc before k v) items ≡ join before (cons k v items)
join-snoc nil items k v = refl
join-snoc (cons j w before) items k v = ap (cons j w) (join-snoc before items k v)

join_nil : (items : ItemList) → join items nil ≡ items
join_nil nil = refl
join_nil (cons j w items) = ap (cons j w) (join_nil items)

read_strings-tokens :
    (ss : List (List ℕ)) (rest : List Token) → read_strings (strings_tokens ss rest) ≡ ok (ss, rest)
unfolding read_strings
read_strings-tokens [] rest = refl
read_strings-tokens (s ∷ []) rest = refl
read_strings-tokens (s ∷ r ∷ ss) rest = rw (read_strings-tokens (r ∷ ss) rest)

abbrev count : ItemList → ℕ
count nil = 0
count (cons k v items) = suc (count items)

count-le : (items : ItemList) → count items ≤ size items
unfolding size
count-le nil = omega arith
count-le (cons k v items) = omega (arith, count-le items)

read_close :
    (fuel : ℕ) (items : ItemList) (rest : List Token)
    → 0 < fuel
    → read_object fuel false items (braces_close ∷ semicolon ∷ rest) ≡ ok (items, rest)
unfolding read_object close_object
read_close zero items rest p = absurd (omega (arith, p))
read_close (suc fuel) items rest p = refl

minus_zero : (n : ℕ) → n - 0 ≡ n
minus_zero n = omega arith

suc_minus : (n k : ℕ) → suc n - suc k ≡ n - k
suc_minus n k = omega arith

mutual
  unfolding read_object read_value tokens IsMap size

  items_read :
      (items before : ItemList) (fuel : ℕ) (root : Bool) (rest : List Token)
      → IsMap before items
      → size items ≤ fuel
      → read_object fuel root before (tokens items rest)
        ≡ read_object (fuel - count items) root (join before items) rest
  items_read nil before fuel root rest m p = rw (join_nil before, minus_zero fuel)
  items_read (cons k v items) before zero root rest m p = absurd (omega (arith, p))
  items_read (cons k v items) before (suc fuel) root rest (fresh, t, m) p = rw (
    value_read v fuel (tokens items rest) t (omega (arith, p)),
    assign-snoc before k v fresh,
    items_read items (snoc before k v) fuel root rest m (omega (arith, p)),
    join-snoc before items k v,
    suc_minus fuel (count items),
  )

  value_read :
      (v : ConfigItem) (fuel : ℕ) (rest : List Token)
      → IsTree v
      → value_size v ≤ fuel
      → read_value (read_object fuel false nil) (value_tokens v rest) ≡ ok (v, rest)
  value_read (val_string s) fuel rest t p = refl
  value_read (val_string_list ss) fuel rest t p = rw (read_strings-tokens ss rest)
  value_read (val_item_list items) fuel rest m p = rw (
    items_read items nil fuel false (braces_close ∷ semicolon ∷ rest) m (omega (arith, p)),
    read_close (fuel - count items) items rest (omega (arith, p, count-le items)),
  )

strings_tokens-le :
    (ss : List (List ℕ)) (rest : List Token) → length rest ≤ length (strings_tokens ss rest)
strings_tokens-le [] rest = omega arith
strings_tokens-le (s ∷ []) rest = omega arith
strings_tokens-le (s ∷ r ∷ ss) rest = omega (arith, strings_tokens-le (r ∷ ss) rest)

mutual
  unfolding tokens size

  tokens_long :
      (items : ItemList) (rest : List Token) → size items + length rest ≤ length (tokens items rest)
  tokens_long nil rest = omega arith
  tokens_long (cons k v items) rest =
      omega (arith, tokens_long items rest, value_long v (tokens items rest))

  value_long :
      (v : ConfigItem) (rest : List Token)
      → value_size v + length rest ≤ length (value_tokens v rest)
  value_long (val_string s) rest = omega arith
  value_long (val_string_list ss) rest = omega (arith, strings_tokens-le ss rest)
  value_long (val_item_list items) rest =
      omega (arith, tokens_long items (braces_close ∷ semicolon ∷ rest))

read_end :
    (fuel : ℕ) (items : ItemList) → 0 < fuel → read_object fuel true items [] ≡ ok (items, [])
unfolding read_object
read_end zero items p = absurd (omega (arith, p))
read_end (suc fuel) items p = refl

-- The parser reads the tokens of a tree, in which no object has two items of one name, back as that
-- tree and leaves none of them, if its fuel is more than the number of the tokens.
pub read_object-tokens :
    (items : ItemList) (fuel : ℕ)
    → IsMap nil items
    → length (tokens items []) < fuel
    → read_object fuel true nil (tokens items []) ≡ ok (items, [])
read_object-tokens items fuel m p =
    let long = tokens_long items [] in
    rw (
      items_read items nil fuel true [] m (omega (arith, p, long)),
      read_end (fuel - count items) items (omega (arith, p, long, count-le items)),
    )
