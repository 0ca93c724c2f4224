-- ===== src/ShellcodeManager/Tests.antt =====
-- The theorems about the shellcode manager at concrete inputs.
use nepenthes.Base.{ℕ, zero, suc, ◌≡◌, refl, true, List, [], ◌∷◌, some, none, codes, done}
use nepenthes.ShellcodeManager.{
  sch_nothing, sch_reprocess, sch_reprocess_but_not_me, sch_done, Answer, Search, ShellcodeEvent,
  search_from, handle_shellcode,
}
use nepenthes.ShellcodeManager.Answers.{LeavesAlone, NoneLeftOut}

-- A message is the number of layers around the code; handler 0 takes one off, handler 1 takes the
-- bare code.
abbrev peel : ℕ → ℕ → Unit {0} → Answer ℕ (Unit {0})
peel zero zero w = record { result = sch_nothing; message = 0; world = w }
peel zero (suc n) w = record { result = sch_reprocess; message = n; world = w }
peel (suc h) zero w = record { result = sch_done; message = 0; world = w }
peel (suc h) (suc n) w = record { result = sch_nothing; message = suc n; world = w }

alone : LeavesAlone peel (1 ∷ 0 ∷ [])
alone zero zero w e = refl
alone zero (suc n) w e = cc
alone (suc h) zero w e = cc
alone (suc h) (suc n) w e = refl

all_in : NoneLeftOut peel (1 ∷ 0 ∷ [])
all_in zero zero w e = cc
all_in zero (suc n) w e = cc
all_in (suc h) zero w e = cc
all_in (suc h) (suc n) w e = cc

abbrev peeled : Search ℕ (Unit {0})
peeled = record { result = sch_done; handler = some 1; message = 0; world = tt }

abbrev told : List (ShellcodeEvent ℕ)
told =
    record { message = 1; handler = none; trigger = codes "LSASS"; known = true; type = 70 }
    ∷ record { message = 0; handler = some 1; trigger = codes "LSASS"; known = true; type = 71 }
    ∷ []

peels : handle_shellcode peel (1 ∷ 0 ∷ []) 9 1 (some (codes "LSASS")) true tt ≡ done (peeled, told)
unfolding handle_shellcode search_from
peels = refl

-- A handler that always asks to be left out.
abbrev stubborn : ℕ → ℕ → Unit {0} → Answer ℕ (Unit {0})
stubborn h n w = record { result = sch_reprocess_but_not_me; message = n; world = w }
