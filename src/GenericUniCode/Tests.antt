-- ===== src/GenericUniCode/Tests.antt =====
-- Messages with widened code, and the theorems about one.
use nepenthes.Base.{
  ℕ, zero, suc, aborted, thrown, ◌≡◌, ◌≤◌, refl, arith, List, [], ◌∷◌, ◌++◌, length, take, codes,
  zeros, length-zeros, done, running, fault, Outcome, Bool-cases, inl, inr, true, ltb, replicate,
  length-replicate, some, none, ◌∙◌, sym, ap,
}
use nepenthes.ShellcodeManager
use nepenthes.ShellcodeManager.{
  SchResult, sch_nothing, sch_reprocess, sch_done, Answer, event_of, ev_shellcode,
  ev_shellcode_done,
}
use nepenthes.GenericUniCode.{
  count_byte, count_runs, longest_run, is_wide, unicode_length, low_bytes, unicode_try_decode,
  handle_shellcode,
}
use nepenthes.GenericUniCode.Narrowing.{narrow, narrow_within, unicode_try_decode-narrow}
use nepenthes.GenericUniCode.Relation.{Narrows, unicode_try_decode-Narrows}
use nepenthes.GenericUniCode.Search.{IsUniCode, handle_shellcode-narrowed}
use nepenthes.GenericUniCode.Widened.{widen, IsPlain, handle_shellcode-widen}

-- Code of 2001 bytes behind a request, and an end of a line.
handle_shellcode-widen_example :
    handle_shellcode (codes "GET" ++ (widen (zeros 2001) ++ (13 ∷ 10 ∷ [])))
    ≡ done (sch_reprocess, codes "GET" ++ (zeros 2001 ++ (13 ∷ 10 ∷ [])))
handle_shellcode-widen_example =
    handle_shellcode-widen (codes "GET") (zeros 2001) (10 ∷ []) 13 (refl, (refl, (refl, tt)))
      (omega (arith, length-zeros 2001)) (refl, (refl, tt))

-- "ab", six widened bytes, "c"
abbrev short : List ℕ
short = codes "ab" ++ (widen (codes "hidden") ++ codes "c")

unicode_try_decode-Narrows_example :
    (block : List ℕ) × (n : ℕ) × (unicode_try_decode short ≡ done (block, n))
    × (n ≤ length short)
    × (length block ≡ length short)
    × Narrows short (take n block)
unicode_try_decode-Narrows_example = unicode_try_decode-Narrows short

narrowed : narrow short ≡ codes "abhiddenc"
unfolding narrow_within is_wide unicode_length low_bytes
narrowed = refl

-- A run among the odd bytes that goes on to the end of the message is not counted.
open_run : longest_run (codes "x" ++ widen (codes "hidden")) ≡ 0
unfolding longest_run count_runs count_byte
open_run = refl

-- Zeros at the end of the even bytes are counted with those at the start of the odd ones.
two_runs : longest_run (1 ∷ 0 ∷ 1 ∷ 0 ∷ 0 ∷ 1 ∷ []) ≡ 3
unfolding longest_run count_runs count_byte
two_runs = refl

-- The unicode handler, and one that takes messages that do not start with a zero byte.
abbrev answer : Outcome (SchResult × List ℕ) → List ℕ → Unit {0} → Answer (List ℕ) (Unit {0})
answer (done (r, left)) msg w = record { result = r; message = left; world = w }
answer running msg w = record { result = sch_nothing; message = msg; world = w }
answer aborted msg w = record { result = sch_nothing; message = msg; world = w }
answer thrown msg w = record { result = sch_nothing; message = msg; world = w }
answer fault msg w = record { result = sch_nothing; message = msg; world = w }

abbrev manage : ℕ → List ℕ → Unit {0} → Answer (List ℕ) (Unit {0})
manage zero msg w = answer (handle_shellcode msg) msg w
manage (suc h) (suc c ∷ s) w = record { result = sch_done; message = suc c ∷ s; world = w }
manage (suc h) (zero ∷ s) w = record { result = sch_nothing; message = zero ∷ s; world = w }
manage (suc h) [] w = record { result = sch_nothing; message = []; world = w }

returns :
    (msg : List ℕ) → (r : SchResult) × (left : List ℕ) × (handle_shellcode msg ≡ done (r, left))
unfolding handle_shellcode
returns msg = elim (Bool-cases (ltb 2000 (longest_run msg))) [
  | inl e ↦
      let (block, n, e', _, _, _) = unicode_try_decode-narrow msg in
      (sch_reprocess, take n block, rw (e, e'))
  | inr e ↦ (sch_nothing, msg, rw (e))
]

manage-IsUniCode : IsUniCode manage (1 ∷ 0 ∷ []) 0 tt
manage-IsUniCode msg =
    let (r, left, e) = returns msg in
    (
      e ∙ ap (λ m. done ((answer m msg tt).result, (answer m msg tt).message)) (sym e),
      ap (λ m. (answer m msg tt).world) e,
    )

abbrev code : List ℕ
code = 65 ∷ replicate 2000 65

IsPlain-replicate : (n : ℕ) → IsPlain (replicate n 65)
IsPlain-replicate zero = tt
IsPlain-replicate (suc n) = (refl, IsPlain-replicate n)

handle_shellcode-narrowed_example :
    ShellcodeManager.handle_shellcode manage
      (1 ∷ 0 ∷ [])
      9
      (widen code ++ (13 ∷ 10 ∷ []))
      (some (codes "LSASS"))
      true
      tt
    ≡ done (
      record { result = sch_done; handler = some 1; message = code ++ (13 ∷ 10 ∷ []); world = tt },
      event_of manage
            (1 ∷ 0 ∷ [])
            (widen code ++ (13 ∷ 10 ∷ []))
            none
            (some (codes "LSASS"))
            true
            ev_shellcode
          ∷ event_of manage
              (1 ∷ 0 ∷ [])
              (code ++ (13 ∷ 10 ∷ []))
              (some 1)
              (some (codes "LSASS"))
              true
              ev_shellcode_done
          ∷ [],
    )
handle_shellcode-narrowed_example =
    handle_shellcode-narrowed manage (1 ∷ 0 ∷ []) 0 1 (1 ∷ []) [] [] (0 ∷ []) [] code (10 ∷ []) 13
      tt (code ++ (13 ∷ 10 ∷ [])) tt 9 (some (codes "LSASS")) true manage-IsUniCode refl refl tt
      (refl, IsPlain-replicate 2000) (omega (arith, length-replicate {A = ℕ} 2000 65))
      (refl, (refl, tt)) (refl, tt) tt refl (omega arith)
