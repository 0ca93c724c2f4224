-- ===== src/Base64/Tables.antt =====
-- The two tables of the base64 coder belong together.
use nepenthes.Base.{
  ℕ, zero, suc, ◌<◌, ◌≡◌, inl, inr, refl, ap, ◌∙◌, arith, Bool, true, ◌==◌, ◌&&◌, ltb, Bool-cases,
}
use nepenthes.Base64.{encoded, decoded, lookup}

unfoldable pub all_below : ℕ → (ℕ → Bool) → Bool
all_below zero test = true
all_below (suc n) test = test n && all_below n test

pub all_below_lem :
    (n : ℕ) (test : ℕ → Bool) → all_below n test ≡ true → (i : ℕ) → i < n → test i ≡ true
unfolding all_below
all_below_lem zero test e i h = absurd (omega (arith, h))
all_below_lem (suc n) test e i h = elim (Bool-cases (i == n)) [
  | inl q ↦ subst_back i n test (ground (arith, q)) (ground (arith, e))
  | inr q ↦ all_below_lem n test (ground (arith, e)) i (ground (arith, q, h))
]
  where
    subst_back : (i n : ℕ) (test : ℕ → Bool) → i ≡ n → test n ≡ true → test i ≡ true
    subst_back i n test p t = ap test p ∙ t

tables : all_below 64 (λ x. (decoded (encoded x) == x) && ltb 0 (encoded x)) ≡ true
unfolding all_below decoded encoded lookup
tables = refl

pub decoded-encoded : (x : ℕ) → x < 64 → decoded (encoded x) ≡ x
decoded-encoded x h =
    let e = all_below_lem 64 (λ x. (decoded (encoded x) == x) && ltb 0 (encoded x)) tables x h in
    ground (arith, e)

pub encoded-positive : (x : ℕ) → x < 64 → 0 < encoded x
encoded-positive x h =
    let e = all_below_lem 64 (λ x. (decoded (encoded x) == x) && ltb 0 (encoded x)) tables x h in
    ground (arith, e)
