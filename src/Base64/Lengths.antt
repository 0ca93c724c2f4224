-- ===== src/Base64/Lengths.antt =====
-- The lengths that do not overflow.
use nepenthes.Base.Int.{pos, signed32}
use nepenthes.Base.{
  ℕ, ◌+◌, ◌*◌, ◌/◌, ◌%◌, ◌^◌, ◌<◌, ◌≡◌, ◌∙◌, ap, arith, ltb, true, List, length, take-all, done,
}
use nepenthes.Base64.{int32, encoded_size, decoded_size, b64encode_len, b64decode_len, counted}

pub int32-small : (n : ℕ) → n < 2 ^ 31 → int32 n ≡ pos n
unfolding int32
int32-small n small =
    let e : n % 2 ^ 32 ≡ n = omega (arith, small) in
    let below : ltb n (2 ^ 31) ≡ true = ground (arith, small) in ap signed32 e ∙ rw (below)

pub b64encode_len-small :
    (n : ℕ) → n + 2 < 3 * 2 ^ 29 → b64encode_len (int32 n) ≡ done (pos (encoded_size n))
unfolding b64encode_len encoded_size
b64encode_len-small n small =
    let first : ltb (n + 2) (2 ^ 31) ≡ true = ground (arith, small) in
    let size : 4 * ((n + 2) / 3) < 2 ^ 31 = omega (arith, small) in
    let all : ltb (4 * ((n + 2) / 3)) (2 ^ 31) ≡ true = ground (arith, size) in
    ap b64encode_len (int32-small n (omega (arith, small))) ∙ rw (first, all)

pub b64decode_len-small :
    (n : ℕ) → n + 3 < 2 ^ 31 → b64decode_len (int32 n) ≡ done (pos (decoded_size n))
unfolding b64decode_len
b64decode_len-small n small =
    let below : ltb (n + 3) (2 ^ 31) ≡ true = ground (arith, small) in
    ap b64decode_len (int32-small n (omega (arith, small))) ∙ rw (below)

pub counted-small : (s : List ℕ) → length s < 2 ^ 31 → counted (int32 (length s)) s ≡ s
unfolding counted
counted-small s small =
    ap (λ l. counted l s) (int32-small (length s) small) ∙ take-all (length s) s (omega arith)
