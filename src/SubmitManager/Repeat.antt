-- ===== src/SubmitManager/Repeat.antt =====
-- What happens to a file that comes again.
use nepenthes.Base.{
  ℕ, ◌≡◌, refl, ap, ◌∙◌, arith, inl, inr, Bool, true, false, Bool-cases, ◌&&◌, List, [], ◌∷◌, ◌++◌,
  map, Option, some, str_eq_refl,
}
use nepenthes.SubmitManager.{
  Action, event, hit, SubmitManager, Download, is_known, is_foreign, announce, examine,
  submit_examined, submit_bytes, add_submission, ev_submission,
}

known-last : (hash : List ℕ) (hs : List (List ℕ)) → is_known hash (hs ++ hash ∷ []) ≡ true
unfolding is_known
known-last hash [] = rw (str_eq_refl hash)
known-last hash (k ∷ hs) = ground (arith, known-last hash hs)

module _ (md5 sha : List ℕ → List ℕ) (magic : List ℕ → Option (List ℕ)) where
  -- After the call the hash is known, and neither the handlers nor the flag have changed.
  announce-known :
      (m : SubmitManager) (d : Download)
      → (is_known d.md5sum (announce md5 sha magic m d).0.file_hashes ≡ true)
        × ((announce md5 sha magic m d).0.strict_file_type ≡ m.strict_file_type)
  unfolding announce
  announce-known m d = elim (Bool-cases (is_known d.md5sum m.file_hashes)) [
    | inl e ↦ rw e (e, refl)
    | inr e ↦ rw e (known-last d.md5sum m.file_hashes, refl)
  ]

  add_submission-accepted :
      (m : SubmitManager) (d : Download) (b : ℕ) (bytes : List ℕ)
      → d.buffer ≡ some (b ∷ bytes)
      → (is_foreign (magic (b ∷ bytes)) && m.strict_file_type) ≡ false
      → add_submission md5 sha magic m d
        ≡ announce md5 sha magic m (examine md5 sha magic d (b ∷ bytes))
  unfolding add_submission
  add_submission-accepted m d b bytes e accepted = ap (submit_bytes md5 sha magic m d) e ∙ enters
    where
      enters :
          submit_bytes md5 sha magic m d (some (b ∷ bytes))
          ≡ announce md5 sha magic m (examine md5 sha magic d (b ∷ bytes))
      enters = unfold submit_bytes submit_examined examine in rw accepted

  announce-hit :
      (m : SubmitManager) (d : Download)
      → is_known d.md5sum m.file_hashes ≡ true
      → announce md5 sha magic m d ≡ (m, event ev_submission d ∷ map (λ h. hit h d) m.submitters)
  unfolding announce
  announce-hit m d known = rw known

  -- A file with some bytes that is not dropped for its type is known from then on: when the same
  -- bytes come again, in whatever download, the manager stays as it is, announces them, and every
  -- handler is told of a hit and given nothing to submit.
  pub add_submission_twice :
      (m : SubmitManager) (d d' : Download) (b : ℕ) (bytes : List ℕ)
      → d.buffer ≡ some (b ∷ bytes)
      → d'.buffer ≡ some (b ∷ bytes)
      → (is_foreign (magic (b ∷ bytes)) && m.strict_file_type) ≡ false
      → let first = (add_submission md5 sha magic m d).0 in
        let again = examine md5 sha magic d' (b ∷ bytes) in
        add_submission md5 sha magic first d'
        ≡ (first, event ev_submission again ∷ map (λ h. hit h again) first.submitters)
  unfolding examine
  add_submission_twice m d d' b bytes e e' accepted =
      let x = examine md5 sha magic d (b ∷ bytes) in
      let (known, same) = announce-known m x in
      let enters : (add_submission md5 sha magic m d).0 ≡ (announce md5 sha magic m x).0 =
        ap (λ (r : SubmitManager × List Action). r.0)
          (add_submission-accepted m d b bytes e accepted) in
      let first = (add_submission md5 sha magic m d).0 in
      let known' : is_known (md5 (b ∷ bytes)) first.file_hashes ≡ true =
        ap (λ (r : SubmitManager). is_known (md5 (b ∷ bytes)) r.file_hashes) enters ∙ known in
      let same' : first.strict_file_type ≡ m.strict_file_type =
        ap (λ (r : SubmitManager). r.strict_file_type) enters ∙ same in
      add_submission-accepted first d' b bytes e'
        (ap (λ (s : Bool). is_foreign (magic (b ∷ bytes)) && s) same' ∙ accepted)
      ∙ announce-hit first (examine md5 sha magic d' (b ∷ bytes)) known'
