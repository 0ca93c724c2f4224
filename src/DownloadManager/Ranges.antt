-- ===== src/DownloadManager/Ranges.antt =====
-- Which addresses are local.
use nepenthes.Base.{
  ℕ, ◌+◌, ◌-◌, ◌*◌, ◌/◌, ◌^◌, ◌≤◌, ◌<◌, ◌≡◌, ◌↔◌, refl, ◌⊎◌, inl, inr, arith, ◌==◌, true, false,
  Bool-cases, List, [], ◌∷◌, All,
}
use nepenthes.DownloadManager.{IpRange, masked, local_ranges, is_in_ranges, is_local_address}

-- From the range's first address on there are 2 ^ (32 - bits) addresses in it.
abbrev pub Within : ℕ → IpRange → Type 0
Within address r = (r.address ≤ address) × (address < r.address + 2 ^ (32 - r.bits))

abbrev pub Any : (IpRange → Type 0) → List IpRange → Type 0
Any P [] = ⊥
Any P (r ∷ rs) = P r ⊎ Any P rs

-- The masked comparison finds the range.
abbrev Agrees : IpRange → Type 0
Agrees r = (address : ℕ) → ((masked address r.bits == r.address) ≡ true) ↔ Within address r

is_in_ranges-Any :
    (address : ℕ) (rs : List IpRange)
    → All Agrees rs
    → (is_in_ranges address rs ≡ true) ↔ Any (Within address) rs
unfolding is_in_ranges
is_in_ranges-Any address [] tests = ((λ e. cc), (λ x. absurd x))
is_in_ranges-Any address (r ∷ rs) (test, tests) =
    let rest = is_in_ranges-Any address rs tests in
    elim (Bool-cases (masked address r.bits == r.address)) [
      | inl e ↦ rw e ((λ p. inl ((test address).0 e)), (λ a. refl))
      | inr e ↦ rw e ((λ p. inr (rest.0 p)), (λ a. later a e rest.1))
    ]
  where
    later :
        Any (Within address) (r ∷ rs)
        → (masked address r.bits == r.address) ≡ false
        → (Any (Within address) rs → is_in_ranges address rs ≡ true)
        → is_in_ranges address rs ≡ true
    later (inl w) e rest = cc ((test address).1 w, e)
    later (inr a) e rest = rest a

-- A range of 2 ^ (32 - bits) addresses that begins at a multiple of that number, for the numbers that
-- occur in the table.
module _ (q address : ℕ) where
  masked_4 :
      ((address / 268435456 * 268435456 == q * 268435456) ≡ true)
      ↔ ((q * 268435456 ≤ address) × (address < q * 268435456 + 268435456))
  masked_4 = ((λ e. ground (arith, e)), (λ w. ground (arith, w.0, w.1)))

  masked_8 :
      ((address / 16777216 * 16777216 == q * 16777216) ≡ true)
      ↔ ((q * 16777216 ≤ address) × (address < q * 16777216 + 16777216))
  masked_8 = ((λ e. ground (arith, e)), (λ w. ground (arith, w.0, w.1)))

  masked_12 :
      ((address / 1048576 * 1048576 == q * 1048576) ≡ true)
      ↔ ((q * 1048576 ≤ address) × (address < q * 1048576 + 1048576))
  masked_12 = ((λ e. ground (arith, e)), (λ w. ground (arith, w.0, w.1)))

  masked_15 :
      ((address / 131072 * 131072 == q * 131072) ≡ true)
      ↔ ((q * 131072 ≤ address) × (address < q * 131072 + 131072))
  masked_15 = ((λ e. ground (arith, e)), (λ w. ground (arith, w.0, w.1)))

  masked_16 :
      ((address / 65536 * 65536 == q * 65536) ≡ true)
      ↔ ((q * 65536 ≤ address) × (address < q * 65536 + 65536))
  masked_16 = ((λ e. ground (arith, e)), (λ w. ground (arith, w.0, w.1)))

  masked_24 :
      ((address / 256 * 256 == q * 256) ≡ true) ↔ ((q * 256 ≤ address) × (address < q * 256 + 256))
  masked_24 = ((λ e. ground (arith, e)), (λ w. ground (arith, w.0, w.1)))

local_ranges-Agrees : All Agrees local_ranges
local_ranges-Agrees = (
  masked_8 0,
  (
    masked_8 10,
    (
      masked_8 14,
      (
        masked_8 39,
        (
          masked_8 127,
          (
            masked_16 32768,
            (
              masked_16 43518,
              (
                masked_12 2753,
                (
                  masked_16 49151,
                  (
                    masked_24 12582912,
                    (
                      masked_24 12582914,
                      (
                        masked_24 12605539,
                        (
                          masked_16 49320,
                          (masked_15 25353, (masked_24 14680063, (masked_4 14, (masked_4 15, tt)))),
                        ),
                      ),
                    ),
                  ),
                ),
              ),
            ),
          ),
        ),
      ),
    ),
  ),
)

-- The addresses that count as local are those in the intervals of the table: from its first address
-- on, a range of n bits has 2^(32-n) addresses, and none besides.
pub is_local_address-Any :
    (address : ℕ) → (is_local_address address ≡ true) ↔ Any (Within address) local_ranges
unfolding is_local_address
is_local_address-Any address = is_in_ranges-Any address local_ranges local_ranges-Agrees
