-- ===== src/BagleDialogue/Auth.antt =====
-- The password of the back door, cut into messages in any way.
use mathlib.Core.List.{append-nil, append_assoc}
use nepenthes.Base.{
  ℕ, ◌+◌, ◌≤◌, ◌<◌, ◌≡◌, ◌⊎◌, ◌∙◌, refl, sym, ap, subst, arith, ltb, Bool, true, false, not, inl,
  inr, List, [], ◌∷◌, ◌++◌, length, take, take-append, length-append, codes, starts_with, Option,
  done, Realloc, none, ◌>>=◌,
}
use nepenthes.Base.Xor.{all_below, at_one}
use nepenthes.Buffer.{Buffer, reset}
use nepenthes.Buffer.Contents.{IsValid, contents, new-Holds, add-contents}
use nepenthes.Buffer.Refinement.{length-contents}
use nepenthes.DownloadBuffer.{DownloadBuffer, Malloc}
use nepenthes.TcpSocket.{cl_assign}
use nepenthes.TcpSocket.Stream.{concat}
use nepenthes.BagleDialogue.{
  new_dialogue, BagleDialogue, bagle_auth, bagle_referrer, Effect, respond, first_auth, second_auth,
  begins_with, is_known, auth, referrer, incoming_data, run, is_case_prefix, binary_start,
}

-- The two passwords.
abbrev pub IsAuth : List ℕ → Type 0
IsAuth a = (a ≡ first_auth) ⊎ (a ≡ second_auth)

known_first : is_known (length first_auth) first_auth ≡ true
unfolding is_known begins_with starts_with
known_first = refl

known_second : is_known (length second_auth) second_auth ≡ true
unfolding is_known begins_with starts_with
known_second = refl

unknown : List ℕ → ℕ → Bool
unknown a k = not (is_known k (take k a))

unknown_first : all_below (length first_auth) (unknown first_auth) ≡ true
unfolding all_below unknown is_known begins_with starts_with
unknown_first = refl

unknown_second : all_below (length second_auth) (unknown second_auth) ≡ true
unfolding all_below unknown is_known begins_with starts_with
unknown_second = refl

not-false : (b : Bool) → not b ≡ true → b ≡ false
not-false b e = ground (arith, e)

IsAuth-is_known : (a : List ℕ) → IsAuth a → is_known (length a) a ≡ true
IsAuth-is_known a (inl e) = subst (λ (x : List ℕ). is_known (length x) x ≡ true) (sym e) known_first
IsAuth-is_known a (inr e) =
    subst (λ (x : List ℕ). is_known (length x) x ≡ true) (sym e) known_second

part_unknown : (a : List ℕ) → IsAuth a → (k : ℕ) → k < length a → is_known k (take k a) ≡ false
unfolding unknown
part_unknown a (inl e) k p =
    subst (λ (x : List ℕ). k < length x → is_known k (take k x) ≡ false) (sym e)
      (λ q.
        not-false (is_known k (take k first_auth))
          (at_one (length first_auth) (unknown first_auth) k unknown_first q))
      p
part_unknown a (inr e) k p =
    subst (λ (x : List ℕ). k < length x → is_known k (take k x) ≡ false) (sym e)
      (λ q.
        not-false (is_known k (take k second_auth))
          (at_one (length second_auth) (unknown second_auth) k unknown_second q))
      p

auth_size : (a : List ℕ) → IsAuth a → length a ≤ 23
auth_size a (inl e) = omega (arith, ap length e)
auth_size a (inr e) = omega (arith, ap length e)

positive : (a : List ℕ) → IsAuth a → 0 < length a
positive a (inl e) = omega (arith, ap length e)
positive a (inr e) = omega (arith, ap length e)

nothing_or_more : (s : List ℕ) → (s ≡ []) ⊎ (0 < length s)
nothing_or_more [] = inl refl
nothing_or_more (c ∷ s) = inr (omega arith)

-- The dialogue that waits for the password, and the one that has got it.
abbrev pub waiting : Buffer → ℕ → Option DownloadBuffer → BagleDialogue
waiting b size down = record { state = bagle_auth; buffer = b; file_size = size; download = down }

abbrev pub admitted : ℕ → Option DownloadBuffer → BagleDialogue
admitted size down = record {
  state = bagle_referrer;
  buffer = reset;
  file_size = size;
  download = down;
}

module _ (r : Realloc) (m : Malloc) (size : ℕ) (down : Option DownloadBuffer) where
  run_empty :
      (msgs : List (List ℕ))
      → concat msgs ≡ []
      → run r m (admitted size down) msgs ≡ done (admitted size down, [])
  unfolding run incoming_data referrer binary_start is_case_prefix
  run_empty [] e = refl
  run_empty ([] ∷ msgs) e = rw (run_empty msgs e)
  run_empty ((c ∷ msg) ∷ msgs) e = cc

  complete :
      (b : Buffer) (msg a : List ℕ)
      → IsAuth a
      → IsValid b
      → contents b ++ msg ≡ a
      → incoming_data r m (waiting b size down) msg
        ≡ done (record {
          dialogue = admitted size down;
          effects = respond (codes "12345678") ∷ [];
          level = cl_assign;
        })
  unfolding incoming_data auth
  complete b msg a known v e =
      let all = ap length e ∙ refl in
      let (b', runs, v', same) = add-contents r b msg v (
        omega
          (arith, length-contents b v, length-append (contents b) msg, all, auth_size a known)) in
      rw (
        runs,
        same ∙ e,
        sym (length-contents b' v') ∙ ap length (same ∙ e),
        IsAuth-is_known a known,
      )

  partly :
      (b : Buffer) (msg a rest : List ℕ)
      → IsAuth a
      → IsValid b
      → contents b ++ (msg ++ rest) ≡ a
      → 0 < length rest
      → (b' : Buffer) × IsValid b'
        × (contents b' ≡ contents b ++ msg)
        × (incoming_data r m (waiting b size down) msg
            ≡ done (record { dialogue = waiting b' size down; effects = []; level = cl_assign }))
  unfolding incoming_data auth
  partly b msg a rest known v e more =
      let whole : (contents b ++ msg) ++ rest ≡ a = append_assoc (contents b) msg rest ∙ e in
      let size' : length (contents b ++ msg) + length rest ≡ length a =
        sym (length-append (contents b ++ msg) rest) ∙ ap length whole in
      let (b', runs, v', same) = add-contents r b msg v (
        omega
          (arith, length-contents b v, length-append (contents b) msg, size', auth_size a known)) in
      let moved : b'.offset ≡ length (contents b ++ msg) =
        sym (length-contents b' v') ∙ ap length same in
      let part : contents b' ≡ take b'.offset a =
        same
        ∙ sym (take-append b'.offset (contents b ++ msg) rest (sym moved))
        ∙ ap (take b'.offset) whole in
      (
        b',
        v',
        same,
        rw (
          runs,
          ap (is_known b'.offset) part
              ∙ part_unknown a known b'.offset (omega (arith, moved, size', more)),
          small b'.offset (omega (arith, moved, size', auth_size a known)),
        ),
      )
    where
      small : (n : ℕ) → n ≤ 23 → ltb 128 n ≡ false
      small n p = ground (arith, p)

  pub run_step :
      (d d' d'' : BagleDialogue) (msg : List ℕ) (msgs : List (List ℕ)) (fx fx' : List Effect)
      → incoming_data r m d msg ≡ done (record { dialogue = d'; effects = fx; level = cl_assign })
      → run r m d' msgs ≡ done (d'', fx')
      → run r m d (msg ∷ msgs) ≡ done (d'', fx ++ fx')
  unfolding run
  run_step d d' d'' msg msgs fx fx' e e' = rw (e, e')

  admits :
      (msgs : List (List ℕ)) (b : Buffer) (a : List ℕ)
      → IsAuth a
      → IsValid b
      → length (contents b) < length a
      → contents b ++ concat msgs ≡ a
      → run r m (waiting b size down) msgs
        ≡ done (admitted size down, respond (codes "12345678") ∷ [])
  admits [] b a known v part e =
      absurd (omega (arith, part, ap length e, length-append (contents b) []))
  admits (msg ∷ msgs) b a known v part e = elim (nothing_or_more (concat msgs)) [
    | inl last ↦
        run_step (waiting b size down) (admitted size down) (admitted size down) msg msgs
          (respond (codes "12345678") ∷ []) []
          (complete b msg a known v (
            ap (λ (x : List ℕ). contents b ++ x)
              (sym (ap (λ (x : List ℕ). msg ++ x) last ∙ append-nil msg))
            ∙ e))
          (run_empty msgs last)
    | inr more ↦
        let (b', v', same, step) = partly b msg a (concat msgs) known v e more in
        let whole : contents b' ++ concat msgs ≡ a =
          ap (λ (x : List ℕ). x ++ concat msgs) same
          ∙ append_assoc (contents b) msg (concat msgs)
          ∙ e in
        run_step (waiting b size down) (waiting b' size down) (admitted size down) msg msgs []
          (respond (codes "12345678") ∷ []) step
          (admits msgs b' a known v'
            (omega (arith, more, ap length whole, length-append (contents b') (concat msgs))) whole)
  ]

-- A client that sends a new dialogue one of the two passwords, in messages of any sizes, is answered
-- exactly once, with "12345678", and the dialogue waits for an url then. Realloc gives every block that
-- is asked for.
pub run-admitted :
    (r : Realloc) (m : Malloc) (size : ℕ) (msgs : List (List ℕ))
    → IsAuth (concat msgs)
    → (new_dialogue r size >>= λ d. run r m d msgs)
      ≡ done (admitted size none, respond (codes "12345678") ∷ [])
unfolding new_dialogue
run-admitted r m size msgs known =
    let (b, made, v, nothing) = new-Holds r 64 (omega arith) in
    rw (made) (
      admits r m size none msgs b (concat msgs) known v
        (omega (arith, ap length nothing, positive (concat msgs) known))
        (ap (λ (x : List ℕ). x ++ concat msgs) nothing))
