-- ===== src/SubmitManager.antt =====
-- nepenthes-core/src/SubmitManager.cpp: a finished download is hashed, typed, announced by events
-- and, the first time that its hash is seen, given to the submit handlers.
-- The digests of Utilities.cpp, libmagic and the configuration are parameters; the calls of the event
-- manager and of the handlers are collected in their order.
pub mod History
pub mod Repeat
mod Tests
use nepenthes.Base.{
  ℕ, zero, suc, ◌==◌, if◌then◌else◌, Bool, true, false, ◌&&◌, ◌||◌, not, List, [], ◌∷◌, ◌++◌, map,
  length, Option, some, none, codes, str_eq, starts_with,
}

abbrev pub ev_submission : ℕ
ev_submission = 51

abbrev pub ev_submission_dropped : ℕ
ev_submission_dropped = 54

pub record Download : Type 0 where
  pub buffer : Option (List ℕ)
  pub md5sum : List ℕ
  pub sha512 : List ℕ
  pub file_type : Option (List ℕ)

-- A `SubmitHandler *` is a number.
pub record SubmitManager : Type 0 where
  pub strict_file_type : Bool
  pub file_hashes : List (List ℕ)
  pub submitters : List ℕ

-- A call out of the manager, with the download as it then is.
pub data Action : Type 0 where
  event : ℕ → Download → Action
  submit : ℕ → Download → Action
  hit : ℕ → Download → Action

pub register_submitter : SubmitManager → ℕ → SubmitManager × Bool
register_submitter m h = (record m { submitters = m.submitters ++ h ∷ [] }, true)

-- strstr(text, word) != NULL
pub strstr : List ℕ → List ℕ → Bool
unfolding starts_with
strstr [] word = starts_with word []
strstr (c ∷ text) word = starts_with word (c ∷ text) || strstr text word

-- The search for the hash among the known ones, which goes on to the end.
pub is_known : List ℕ → List (List ℕ) → Bool
is_known hash [] = false
is_known hash (h ∷ hs) = str_eq h hash || is_known hash hs

-- Known files: the directory entries whose names have the length of a hash.
pub add_known_files : List (List ℕ) → List (List ℕ) → List (List ℕ)
add_known_files hashes [] = hashes
add_known_files hashes (name ∷ names) =
    add_known_files (if length name == 32 then hashes ++ name ∷ [] else hashes) names

-- `strict` and `dir` are the configured values, `none` where reading them throws; `entries` are the
-- names in the directory, `none` if it cannot be opened. A strict value other than 1 leaves the flag
-- as it was.
pub init :
    SubmitManager → Option ℕ → Option (List ℕ) → Option (List (List ℕ)) → SubmitManager × Bool
unfolding add_known_files
init m none dir entries = (m, false)
init m (some strict) none entries =
    (record m { strict_file_type = if strict == 1 then true else m.strict_file_type }, false)
init m (some strict) (some dir) none =
    (record m { strict_file_type = if strict == 1 then true else m.strict_file_type }, false)
init m (some strict) (some dir) (some names) = (
  record m {
    strict_file_type = if strict == 1 then true else m.strict_file_type;
    file_hashes = add_known_files m.file_hashes names;
  },
  true,
)

-- Whether the file's type lets it be dropped: it names no executable, or there is none at all.
pub is_foreign : Option (List ℕ) → Bool
unfolding strstr
is_foreign none = true
is_foreign (some type) = not (strstr type (codes "executable"))

module _ (md5 sha : List ℕ → List ℕ) (magic : List ℕ → Option (List ℕ)) where
  -- The download with its digests and its type set.
  pub examine : Download → List ℕ → Download
  examine d bytes = record d { md5sum = md5 bytes; sha512 = sha bytes; file_type = magic bytes }

  pub announce : SubmitManager → Download → SubmitManager × List Action
  unfolding is_known
  announce m d =
      if is_known d.md5sum m.file_hashes
      then (m, event ev_submission d ∷ map (λ h. hit h d) m.submitters)
      else (
        record m { file_hashes = m.file_hashes ++ d.md5sum ∷ [] },
        event ev_submission d ∷ map (λ h. submit h d) m.submitters,
      )

  pub submit_examined : SubmitManager → Download → SubmitManager × List Action
  submit_examined m d =
      if is_foreign d.file_type && m.strict_file_type
      then (m, event ev_submission_dropped d ∷ [])
      else announce m d

  pub submit_bytes : SubmitManager → Download → Option (List ℕ) → SubmitManager × List Action
  submit_bytes m d none = (m, [])
  submit_bytes m d (some []) = (m, [])
  submit_bytes m d (some (b ∷ bytes)) = submit_examined m (examine d (b ∷ bytes))

  pub add_submission : SubmitManager → Download → SubmitManager × List Action
  add_submission m d = submit_bytes m d d.buffer
