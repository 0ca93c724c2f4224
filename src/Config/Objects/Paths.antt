-- ===== src/Config/Objects/Paths.antt =====
-- A path of names leads to the item that stands there: findKey of nepenthes-core/src/Config.cpp.
use nepenthes.Base.{
  ℕ, ◌≡◌, ◌∙◌, ◌⊎◌, inl, inr, refl, sym, ap, subst, true, false, Bool-cases, List, [], ◌∷◌, Option,
  some, none, str_eq, str_eq_refl,
}
use nepenthes.Config.Objects.{
  ConfigItem, val_item_list, ItemList, nil, cons, entry, step_into, find_key, load,
}
use nepenthes.Config.Tokens.{ok}
use nepenthes.Config.Tokens.Lexing.{text, AreNamed}
use nepenthes.Config.Objects.Loading.{load-text}
use nepenthes.Config.Objects.Trees.{snoc, IsMap, IsTree, tokens, entry_behind}

-- The item is one of the list, under this name.
abbrev pub Member : List ℕ → ConfigItem → ItemList → Type 0
Member k v nil = ⊥
Member k v (cons j w items) = ((j ≡ k) × (w ≡ v)) ⊎ Member k v items

-- The item stands in the other, under a path of names.
pub data StandsAt : ConfigItem → List (List ℕ) → ConfigItem → Type 0 where
  here : (v : ConfigItem) → StandsAt v [] v
  inside :
      (items : ItemList) (k : List ℕ) (v : ConfigItem) (path : List (List ℕ)) (w : ConfigItem)
      → Member k v items
      → StandsAt v path w
      → StandsAt (val_item_list items) (k ∷ path) w

never_none : {v : ConfigItem} → ◌≡◌ {A = Option ConfigItem} (some v) none → ⊥
never_none e = cc

entry_head : (items : ItemList) (k : List ℕ) (v : ConfigItem) → entry k (cons k v items) ≡ some v
unfolding entry
entry_head items k v = rw (str_eq_refl k)

entry_same :
    (items : ItemList) (k j : List ℕ) (w : ConfigItem)
    → str_eq j k ≡ true
    → entry k (cons j w items) ≡ some w
unfolding entry
entry_same items k j w e = rw (e)

-- A name that is not in the longer list is not in the shorter.
not_before :
    (before : ItemList) (k j : List ℕ) (w : ConfigItem)
    → entry k (snoc before j w) ≡ none
    → entry k before ≡ none
unfolding entry
not_before nil k j w e = refl
not_before (cons i u before) k j w e = elim (Bool-cases (str_eq i k)) [
  | inl q ↦ absurd (never_none (sym (entry_same (snoc before j w) k i u q) ∙ e))
  | inr q ↦
      entry_behind before k i u q
      ∙ not_before before k j w (sym (entry_behind (snoc before j w) k i u q) ∙ e)
]

not_last :
    (before : ItemList) (k j : List ℕ) (w : ConfigItem)
    → entry k (snoc before j w) ≡ none
    → str_eq j k ≡ false
not_last nil k j w e = elim (Bool-cases (str_eq j k)) [
  | inl q ↦ absurd (never_none (sym (entry_same nil k j w q) ∙ e))
  | inr q ↦ q
]
not_last (cons i u before) k j w e = elim (Bool-cases (str_eq i k)) [
  | inl q ↦ absurd (never_none (sym (entry_same (snoc before j w) k i u q) ∙ e))
  | inr q ↦ not_last before k j w (sym (entry_behind (snoc before j w) k i u q) ∙ e)
]

Member-entry :
    (items before : ItemList) (k : List ℕ) (v : ConfigItem)
    → IsMap before items
    → Member k v items
    → (entry k before ≡ none) × (entry k items ≡ some v) × IsTree v
unfolding IsMap
Member-entry nil before k v m h = absurd h
Member-entry (cons j w items) before k v (fresh, t, m) (inl (same, item)) = (
  subst (λ (x : List ℕ). entry x before ≡ none) same fresh,
  subst (λ (x : List ℕ). entry k (cons x w items) ≡ some v) (sym same)
      (entry_head items k w ∙ ap some item),
  subst IsTree item t,
)
Member-entry (cons j w items) before k v (fresh, t, m) (inr h) =
    let (new, found, tree) = Member-entry items (snoc before j w) k v m h in
    (
      not_before before k j w new,
      entry_behind items k j w (not_last before k j w new) ∙ found,
      tree,
    )

-- In a tree in which no object has two items of one name, a path of names leads to the item that
-- stands there.
pub find_key-StandsAt :
    (root w : ConfigItem) (path : List (List ℕ))
    → IsTree root
    → StandsAt root path w
    → find_key (some root) path ≡ some w
unfolding find_key step_into IsMap
find_key-StandsAt root w path t (here v) = refl
find_key-StandsAt root w path t (inside items k v rest u h s) =
    let (new, found, tree) = Member-entry items nil k v t h in
    ap (λ (o : Option ConfigItem). find_key o rest) found ∙ find_key-StandsAt v u rest tree s

-- What is written into a configuration is found in it: a tree of items, in which no object has two
-- items of one name and each name begins with a letter or a digit and has only letters, digits, `-`
-- and `_`, is loaded from its text, and in what is loaded a path of names leads to the item that
-- stands there in the tree.
pub load-find_key :
    (strtol : ℕ → ℕ → ℕ) (items : ItemList) (path : List (List ℕ)) (w : ConfigItem)
    → IsMap nil items
    → AreNamed (tokens items [])
    → StandsAt (val_item_list items) path w
    → (root : ItemList) × (load strtol (text (tokens items [])) ≡ ok root)
      × (find_key (some (val_item_list root)) path ≡ some w)
unfolding IsMap
load-find_key strtol items path w m named s =
    (items, load-text strtol items m named, find_key-StandsAt (val_item_list items) w path m s)
