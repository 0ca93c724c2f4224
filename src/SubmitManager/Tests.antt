-- ===== src/SubmitManager/Tests.antt =====
-- The theorems about the submit manager at concrete inputs.
use nepenthes.Base.{
  ℕ, ◌≡◌, refl, arith, inl, inr, true, false, ◌&&◌, List, [], ◌∷◌, Option, some, none, codes,
}
use nepenthes.SubmitManager.{SubmitManager, Download, is_foreign}
use nepenthes.SubmitManager.History.{Once, Distinct, submitted, run, run-submitted}

-- A digest that keeps the bytes, and a library that calls everything an executable.
abbrev keep : List ℕ → List ℕ
keep bytes = bytes

abbrev pe : List ℕ → Option (List ℕ)
pe bytes = some (codes "PE executable")

abbrev manager : SubmitManager
manager = record { strict_file_type = true; file_hashes = (9 ∷ []) ∷ []; submitters = 4 ∷ 5 ∷ [] }

abbrev worm : Download
worm = record { buffer = some (7 ∷ 7 ∷ []); md5sum = []; sha512 = []; file_type = none }

five-Once : Once 5 manager.submitters
five-Once = inr ((λ e. omega arith), inl (refl, tt))

run-submitted_example :
    ((run keep keep pe 5 manager (worm ∷ worm ∷ [])).0.file_hashes
      ≡ (9 ∷ []) ∷ submitted 5 (run keep keep pe 5 manager (worm ∷ worm ∷ [])).1)
    × Distinct ((9 ∷ []) ∷ submitted 5 (run keep keep pe 5 manager (worm ∷ worm ∷ [])).1)
run-submitted_example = run-submitted keep keep pe 5 manager (worm ∷ worm ∷ []) five-Once (tt, tt)

accepted : (is_foreign (some (codes "PE executable")) && true) ≡ false
unfolding is_foreign
accepted = refl
