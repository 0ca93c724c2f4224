-- ===== src/DownloadUrl/Split.antt =====
-- The searches that the split of an url makes.
use nepenthes.Base.{
  ℕ, ◌≡◌, refl, arith, ◌==◌, ==_refl, false, List, [], ◌∷◌, ◌++◌, length, drop, some, none, All,
  All-append, starts_with, starts_with-append,
}
use nepenthes.DownloadUrl.{put_front, split, split_last}

-- The character does not occur.
abbrev pub Lacks : ℕ → List ℕ → Type 0
Lacks c = All (λ x. (c == x) ≡ false)

pub Lacks-append : (c : ℕ) (s t : List ℕ) → Lacks c s → Lacks c t → Lacks c (s ++ t)
Lacks-append c s t hs ht = All-append (λ x. (c == x) ≡ false) s t hs ht

-- Two texts with a separator between them.
abbrev pub join : List ℕ → List ℕ → List ℕ → List ℕ
join s separator t = s ++ (separator ++ t)

drop-word : (word rest : List ℕ) → drop (length word) (word ++ rest) ≡ rest
drop-word [] rest = refl
drop-word (c ∷ word) rest = drop-word word rest

other_start :
    (c x : ℕ) (word s : List ℕ) → (c == x) ≡ false → starts_with (c ∷ word) (x ∷ s) ≡ false
unfolding starts_with
other_start c x word s e = rw e

pub split-found :
    (c : ℕ) (word s rest : List ℕ)
    → Lacks c s
    → split (c ∷ word) (join s (c ∷ word) rest) ≡ some (s, rest)
unfolding split put_front
split-found c word [] rest h = rw (starts_with-append (c ∷ word) rest, drop-word word rest)
split-found c word (x ∷ s) rest h =
    rw (other_start c x word (join s (c ∷ word) rest) h.0, split-found c word s rest h.1)

pub split-lacking : (c : ℕ) (word s : List ℕ) → Lacks c s → split (c ∷ word) s ≡ none
unfolding split put_front
split-lacking c word [] h = refl
split-lacking c word (x ∷ s) h = rw (other_start c x word s h.0, split-lacking c word s h.1)

pub split_last-lacking : (c : ℕ) (s : List ℕ) → Lacks c s → split_last c s ≡ none
unfolding split_last
split_last-lacking c [] h = refl
split_last-lacking c (x ∷ s) (e, h) = rw (split_last-lacking c s h, unequal c x e)
  where
    unequal : (c x : ℕ) → (c == x) ≡ false → (x == c) ≡ false
    unequal c x e = ground (arith, e)

pub split_last-found :
    (c : ℕ) (d f : List ℕ) → Lacks c f → split_last c (d ++ c ∷ f) ≡ some (d ++ c ∷ [], f)
unfolding split_last
split_last-found c [] f h = rw (split_last-lacking c f h, ==_refl c)
split_last-found c (x ∷ d) f h = rw (split_last-found c d f h)
