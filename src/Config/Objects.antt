-- ===== src/Config/Objects.antt =====
-- The parser of nepenthes-core/src/Config.cpp: readObject makes a tree of the tokens, findKey and the
-- getters read it. A map is the list of its entries, in the order of their first assignment.
pub mod Trees
pub mod Ends
pub mod Loading
pub mod Paths
use nepenthes.Base.{
  ℕ, zero, suc, ◌==◌, if◌then◌else◌, Bool, true, false, List, [], ◌∷◌, ◌++◌, length, Option, some,
  none, str_eq,
}
use nepenthes.Config.Tokens.{
  Token, paren_open, paren_close, braces_open, braces_close, semicolon, comma, key, string,
  ParseError, unexpected_end, braces_on_root, semicolon_after_braces, key_expected,
  semicolon_after_string, semicolon_after_paren, string_or_paren_expected, value_expected, Parse,
  ok, error, running, ◌>>=◌, tokenize,
}

mutual
  pub data ConfigItem : Type 0 where
    val_string : List ℕ → ConfigItem
    val_string_list : List (List ℕ) → ConfigItem
    val_item_list : ItemList → ConfigItem

  pub data ItemList : Type 0 where
    nil : ItemList
    cons : List ℕ → ConfigItem → ItemList → ItemList

-- (*m)[key] = item
pub assign : ItemList → List ℕ → ConfigItem → ItemList
assign nil k v = cons k v nil
assign (cons j w items) k v = if str_eq j k then cons j v items else cons j w (assign items k v)

-- The strings up to the closing parenthesis and its semicolon. A comma may be left out, and at the
-- end of the tokens the loop just ends.
pub read_strings : List Token → Parse (List (List ℕ) × List Token)
read_strings [] = ok ([], [])
read_strings (string s ∷ []) = error unexpected_end
read_strings (string s ∷ comma ∷ ts) = do r ← read_strings ts; ok (s ∷ r.0, r.1)
read_strings (string s ∷ t ∷ ts) = do r ← read_strings (t ∷ ts); ok (s ∷ r.0, r.1)
read_strings (paren_close ∷ []) = error unexpected_end
read_strings (paren_close ∷ semicolon ∷ ts) = ok ([], ts)
read_strings (paren_close ∷ t ∷ ts) = error semicolon_after_paren
read_strings (t ∷ ts) = error string_or_paren_expected

-- `};`
pub close_object : ItemList → List Token → Parse (ItemList × List Token)
close_object items [] = error unexpected_end
close_object items (semicolon ∷ ts) = ok (items, ts)
close_object items (t ∷ ts) = error semicolon_after_braces

-- What follows a key: a string, a list of strings, or an object, which `object` reads.
pub read_value :
    (List Token → Parse (ItemList × List Token)) → List Token → Parse (ConfigItem × List Token)
read_value object [] = error unexpected_end
read_value object (string s ∷ []) = error unexpected_end
read_value object (string s ∷ semicolon ∷ ts) = ok (val_string s, ts)
read_value object (string s ∷ t ∷ ts) = error semicolon_after_string
read_value object (paren_open ∷ ts) = do r ← read_strings ts; ok (val_string_list r.0, r.1)
read_value object (braces_open ∷ ts) = do r ← object ts; ok (val_item_list r.0, r.1)
read_value object (t ∷ ts) = error value_expected

-- The items of an object, into those that are there; `root` is isRoot().
pub read_object : ℕ → Bool → ItemList → List Token → Parse (ItemList × List Token)
read_object zero root items ts = running
read_object (suc fuel) root items [] = if root then ok (items, []) else error unexpected_end
read_object (suc fuel) root items (key k ∷ ts) = do
  r ← read_value (read_object fuel false nil) ts
  read_object fuel root (assign items k r.0) r.1
read_object (suc fuel) root items (braces_close ∷ ts) =
    if root then error braces_on_root else close_object items ts
read_object (suc fuel) root items (t ∷ ts) = error key_expected

-- The whole file, with fuel for all its characters and tokens.
pub load : (ℕ → ℕ → ℕ) → List ℕ → Parse ItemList
load strtol text = do
  ts ← tokenize strtol (suc (length text)) text
  r ← read_object (suc (length ts)) true nil ts
  ok r.0

-- The entry of a map; operator[] puts a NULL into the map where there is none.
unfoldable pub entry : List ℕ → ItemList → Option ConfigItem
entry k nil = none
entry k (cons j v items) = if str_eq j k then some v else entry k items

-- The names of the path, which strsep() cuts at the points.
pub step_into : List ℕ → Option ConfigItem → Option ConfigItem
step_into k none = none
step_into k (some (val_string s)) = none
step_into k (some (val_string_list ss)) = none
step_into k (some (val_item_list items)) = entry k items

pub find_key : Option ConfigItem → List (List ℕ) → Option ConfigItem
find_key item [] = item
find_key item (k ∷ path) = find_key (step_into k item) path

-- What a getter throws.
pub data AccessError : Type 0 where
  invalid_key invalid_type : AccessError

pub data Access (A : Type 0) : Type 0 where
  value : A → Access A
  throws : AccessError → Access A

pub get_val_string : Option ConfigItem → Access (List ℕ)
get_val_string none = throws invalid_key
get_val_string (some (val_string s)) = value s
get_val_string (some (val_string_list ss)) = throws invalid_type
get_val_string (some (val_item_list items)) = throws invalid_type

pub get_val_string_list : Option ConfigItem → Access (List (List ℕ))
get_val_string_list none = throws invalid_key
get_val_string_list (some (val_string s)) = throws invalid_type
get_val_string_list (some (val_string_list ss)) = value ss
get_val_string_list (some (val_item_list items)) = throws invalid_type

pub get_val_item_list : Option ConfigItem → Access ItemList
get_val_item_list none = throws invalid_key
get_val_item_list (some (val_string s)) = throws invalid_type
get_val_item_list (some (val_string_list ss)) = throws invalid_type
get_val_item_list (some (val_item_list items)) = value items

-- What atoi() makes of the string; it is a parameter.
pub get_val_int : {A : Type 0} → (List ℕ → A) → Option ConfigItem → Access A
get_val_int atoi none = throws invalid_key
get_val_int atoi (some (val_string s)) = value (atoi s)
get_val_int atoi (some (val_string_list ss)) = throws invalid_type
get_val_int atoi (some (val_item_list items)) = throws invalid_type

pub data ValueType : Type 0 where
  type_string type_string_list type_item_list : ValueType

pub get_val_type : Option ConfigItem → Access ValueType
get_val_type none = throws invalid_key
get_val_type (some (val_string s)) = value type_string
get_val_type (some (val_string_list ss)) = value type_string_list
get_val_type (some (val_item_list items)) = value type_item_list
