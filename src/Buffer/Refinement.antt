-- ===== src/Buffer/Refinement.antt =====
-- The buffer seen from outside: a sequence of bytes that grows at its end and is cut at its front,
-- through any sequence of the calls of nepenthes-core/src/Buffer.cpp.
use nepenthes.Base.Int.{pos}
use nepenthes.Base.{
  ℕ, ◌+◌, ◌^◌, ◌≤◌, ◌<◌, ◌≡◌, ◌∙◌, refl, sym, ap, subst, arith, List, [], ◌∷◌, ◌++◌, length, drop,
  length-take, Outcome, done, ◌>>=◌, Realloc,
}
use nepenthes.Buffer.{Buffer, reset, add, cut}
use nepenthes.Buffer.Contents.{IsValid, reset-IsValid, contents, Holds, add-contents, cut-contents}

pub data Operation : Type 0 where
  append : List ℕ → Operation
  remove : ℕ → Operation
  empty : Operation

-- What an operation promises of a sequence.
abbrev pub changed : Operation → List ℕ → List ℕ
changed (append d) xs = xs ++ d
changed (remove n) xs = drop n xs
changed empty xs = []

abbrev pub changed_all : List Operation → List ℕ → List ℕ
changed_all [] xs = xs
changed_all (op ∷ ops) xs = changed_all ops (changed op xs)

-- What it asks for: the sequence stays below 2 GB, and no more is removed than there is.
abbrev pub IsAllowed : Operation → List ℕ → Type 0
IsAllowed (append d) xs = length xs + length d < 2 ^ 31
IsAllowed (remove n) xs = n ≤ length xs
IsAllowed empty xs = Unit

abbrev pub AreAllowed : List Operation → List ℕ → Type 0
AreAllowed [] xs = length xs < 2 ^ 31
AreAllowed (op ∷ ops) xs = (length xs < 2 ^ 31) × IsAllowed op xs × AreAllowed ops (changed op xs)

pub length-contents : (b : Buffer) → IsValid b → length (contents b) ≡ b.offset
length-contents b v = omega (arith, length-take b.offset b.bytes, v.sized, v.fits)

module _ (r : Realloc) where
  abbrev pub perform : Operation → Buffer → Outcome Buffer
  perform (append d) b = add r b d
  perform (remove n) b = cut b (pos n)
  perform empty b = done reset

  abbrev pub perform_all : List Operation → Buffer → Outcome Buffer
  perform_all [] b = done b
  perform_all (op ∷ ops) b = do b' ← perform op b; perform_all ops b'

  perform-Holds :
      (op : Operation) (b : Buffer)
      → IsValid b
      → length (contents b) < 2 ^ 31
      → IsAllowed op (contents b)
      → Holds (perform op b) (changed op (contents b))
  unfolding reset
  perform-Holds (append d) b v small ok =
      add-contents r b d v (omega (arith, length-contents b v, ok))
  perform-Holds (remove n) b v small ok =
      cut-contents b n v (omega (arith, length-contents b v, ok))
        (omega (arith, length-contents b v, small))
  perform-Holds empty b v small ok = (reset, refl, reset-IsValid, refl)

  -- The buffer implements a sequence of bytes: any calls of add, of cut and of reset or clear, one after
  -- the other, return, and leave a valid buffer whose contents are what the same operations make of the
  -- sequence that it held. The sequence stays below 2 GB, no more is cut than there is, and realloc
  -- gives every block that is asked for.
  pub perform_all-Holds :
      (ops : List Operation) (b : Buffer)
      → IsValid b
      → AreAllowed ops (contents b)
      → Holds (perform_all ops b) (changed_all ops (contents b))
  perform_all-Holds [] b v small = (b, refl, v, refl)
  perform_all-Holds (op ∷ ops) b v (small, ok, oks) =
      let (b', runs, v', same) = perform-Holds op b v small ok in
      let (b'', runs', v'', same') =
        perform_all-Holds ops b' v' (subst (AreAllowed ops) (sym same) oks) in
      (b'', rw (runs) runs', v'', same' ∙ ap (changed_all ops) same)
