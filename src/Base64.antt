-- ===== src/Base64.antt =====
-- The base64 coder of nepenthes-core/src/Utilities.cpp. A C string and a block of memory are lists of
-- bytes; shifts and masks are written as arithmetic, and an `|` as a sum, since its sides have no bit
-- in common. An `int32_t` that overflows is undefined in C++, and a fault here.
pub mod Tables
pub mod Lengths
pub mod Encoding
pub mod Decoding
mod Tests
use nepenthes.Base.Int.{ℤ, pos, negsuc, signed32}
use nepenthes.Base.{
  ℕ, zero, suc, ◌+◌, ◌*◌, ◌/◌, ◌%◌, ◌-◌, ◌^◌, ◌&&◌, ltb, leb, if◌then◌else◌, Bool, true, false,
  List, [], ◌∷◌, ◌++◌, length, take, drop, replicate, Option, some, none, codes, Outcome, done,
  fault, ◌>>=◌,
}

abbrev pub b64e : List ℕ
b64e = codes "ABCDEFGHIJKLMNOPQRSTUVWXYZabcdefghijklmnopqrstuvwxyz0123456789+/"

abbrev pub b64d : List ℕ
b64d =
    0 ∷ 0 ∷ 0 ∷ 0 ∷ 0 ∷ 0 ∷ 0 ∷ 0 ∷ 0 ∷ 0 ∷ 0 ∷ 0 ∷ 0 ∷ 0 ∷ 0 ∷ 0 ∷ 0 ∷ 0 ∷ 0 ∷ 0 ∷ 0 ∷ 0 ∷ 0 ∷ 0
    ∷ 0 ∷ 0 ∷ 0 ∷ 0 ∷ 0 ∷ 0 ∷ 0 ∷ 0 ∷ 0 ∷ 0 ∷ 0 ∷ 0 ∷ 0 ∷ 0 ∷ 0 ∷ 0 ∷ 0 ∷ 0 ∷ 0 ∷ 62 ∷ 0 ∷ 0 ∷ 0
    ∷ 63 ∷ 52 ∷ 53 ∷ 54 ∷ 55 ∷ 56 ∷ 57 ∷ 58 ∷ 59 ∷ 60 ∷ 61 ∷ 0 ∷ 0 ∷ 0 ∷ 0 ∷ 0 ∷ 0 ∷ 0 ∷ 0 ∷ 1 ∷ 2
    ∷ 3 ∷ 4 ∷ 5 ∷ 6 ∷ 7 ∷ 8 ∷ 9 ∷ 10 ∷ 11 ∷ 12 ∷ 13 ∷ 14 ∷ 15 ∷ 16 ∷ 17 ∷ 18 ∷ 19 ∷ 20 ∷ 21 ∷ 22
    ∷ 23 ∷ 24 ∷ 25 ∷ 0 ∷ 0 ∷ 0 ∷ 0 ∷ 0 ∷ 0 ∷ 26 ∷ 27 ∷ 28 ∷ 29 ∷ 30 ∷ 31 ∷ 32 ∷ 33 ∷ 34 ∷ 35 ∷ 36
    ∷ 37 ∷ 38 ∷ 39 ∷ 40 ∷ 41 ∷ 42 ∷ 43 ∷ 44 ∷ 45 ∷ 46 ∷ 47 ∷ 48 ∷ 49 ∷ 50 ∷ 51 ∷ 0 ∷ 0 ∷ 0 ∷ 0 ∷ 0
    ∷ []

-- An element of a table; the indices are below the tables' lengths.
pub lookup : List ℕ → ℕ → ℕ
lookup [] i = 0
lookup (x ∷ xs) zero = x
lookup (x ∷ xs) (suc i) = lookup xs i

pub encoded : ℕ → ℕ
encoded x = lookup b64e x

pub decoded : ℕ → ℕ
decoded c = lookup b64d (c % 128)

-- out[0], out[1], ... in their order.
pub write : List ℕ → List ℕ → Outcome (List ℕ)
write [] out = done out
write (c ∷ cs) [] = fault
write (c ∷ cs) (o ∷ out) = do rest ← write cs out; done (c ∷ rest)

-- The clauses are the function's returns: `in` has no byte, one, two, or more.
pub b64enc : List ℕ → List ℕ → Outcome (List ℕ)
b64enc [] out = done out
b64enc (t0 ∷ []) out = write (encoded (t0 / 4 % 64) ∷ encoded (t0 % 4 * 16 + 0 / 16) ∷ []) out
b64enc (t0 ∷ t1 ∷ []) out =
    write
      (encoded (t0 / 4 % 64)
        ∷ encoded (t0 % 4 * 16 + t1 / 16)
        ∷ encoded (t1 % 16 * 4 + 0 / 64)
        ∷ [])
      out
b64enc (t0 ∷ t1 ∷ t2 ∷ rest) out =
    write
      (encoded (t0 / 4 % 64)
        ∷ encoded (t0 % 4 * 16 + t1 / 16)
        ∷ encoded (t1 % 16 * 4 + t2 / 64)
        ∷ encoded (t2 % 64)
        ∷ [])
      out

-- The bytes of a group, from four values below 64.
pub first : ℕ → ℕ → ℕ
first t0 t1 = (t0 * 4 + t1 / 16) % 256

pub second : ℕ → ℕ → ℕ
second t1 t2 = t1 % 16 * 16 + t2 / 4 % 16

pub third : ℕ → ℕ → ℕ
third t2 t3 = t2 % 4 * 64 + t3

pub b64dec : List ℕ → List ℕ → Outcome (List ℕ)
b64dec [] out = done out
b64dec (c0 ∷ []) out = write (first (decoded c0) 0 ∷ 0 ∷ []) out
b64dec (c0 ∷ c1 ∷ []) out =
    write (first (decoded c0) (decoded c1) ∷ second (decoded c1) 0 ∷ 0 ∷ []) out
b64dec (c0 ∷ c1 ∷ c2 ∷ []) out =
    write
      (first (decoded c0) (decoded c1)
        ∷ second (decoded c1) (decoded c2)
        ∷ third (decoded c2) 0
        ∷ [])
      out
b64dec (c0 ∷ c1 ∷ c2 ∷ c3 ∷ rest) out =
    write
      (first (decoded c0) (decoded c1)
        ∷ second (decoded c1) (decoded c2)
        ∷ third (decoded c2) (decoded c3)
        ∷ [])
      out

-- while ( inlen > 0 ): `in` advances by 3 and `out` by 4.
pub b64encode : List ℕ → List ℕ → Outcome (List ℕ)
b64encode [] out = done out
b64encode (t0 ∷ []) out = b64enc (t0 ∷ []) out
b64encode (t0 ∷ t1 ∷ []) out = b64enc (t0 ∷ t1 ∷ []) out
b64encode (t0 ∷ t1 ∷ t2 ∷ rest) out = do
  out' ← b64enc (t0 ∷ t1 ∷ t2 ∷ rest) out
  tail ← b64encode rest (drop 4 out')
  done (take 4 out' ++ tail)

pub b64decode : List ℕ → List ℕ → Outcome (List ℕ)
b64decode [] out = done out
b64decode (c0 ∷ []) out = b64dec (c0 ∷ []) out
b64decode (c0 ∷ c1 ∷ []) out = b64dec (c0 ∷ c1 ∷ []) out
b64decode (c0 ∷ c1 ∷ c2 ∷ []) out = b64dec (c0 ∷ c1 ∷ c2 ∷ []) out
b64decode (c0 ∷ c1 ∷ c2 ∷ c3 ∷ rest) out = do
  out' ← b64dec (c0 ∷ c1 ∷ c2 ∷ c3 ∷ rest) out
  tail ← b64decode rest (drop 3 out')
  done (take 3 out' ++ tail)

-- int32_t l = strlen(in)
pub int32 : ℕ → ℤ
int32 n = signed32 (n % 2 ^ 32)

-- -n
pub minus : ℕ → ℤ
minus zero = pos 0
minus (suc n) = negsuc n

pub encoded_size : ℕ → ℕ
encoded_size l = 4 * ((l + 2) / 3)

pub decoded_size : ℕ → ℕ
decoded_size l = 3 * ((l + 3) / 4)

-- 4*((l+2)/3) in 32 bits; the quotient of a negative number is rounded to 0.
pub b64encode_len : ℤ → Outcome ℤ
b64encode_len (pos l) =
    if ltb (l + 2) (2 ^ 31) && ltb (encoded_size l) (2 ^ 31)
    then done (pos (encoded_size l))
    else fault
b64encode_len (negsuc k) =
    if leb (4 * ((k - 1) / 3)) (2 ^ 31) then done (minus (4 * ((k - 1) / 3))) else fault

-- 3*((l+3)/4) in 32 bits
pub b64decode_len : ℤ → Outcome ℤ
b64decode_len (pos l) = if ltb (l + 3) (2 ^ 31) then done (pos (decoded_size l)) else fault
b64decode_len (negsuc k) = done (minus (3 * ((k - 2) / 4)))

-- The bytes that a loop reads that runs while inlen > 0.
pub counted : ℤ → List ℕ → List ℕ
counted (pos n) inp = take n inp
counted (negsuc n) inp = []

-- The bytes before the first 0; there is none in memory that ends before.
pub c_string : List ℕ → Outcome (List ℕ)
c_string [] = fault
c_string (zero ∷ cs) = done []
c_string (suc c ∷ cs) = do rest ← c_string cs; done (suc c ∷ rest)

-- malloc(l+1), filled with '=' (61) and a 0 at the end. `ok` says whether malloc() gives memory; it
-- gives none for a negative size, which is more than all there is.
pub encode_block : Bool → ℤ → List ℕ → Outcome (Option (List ℕ))
encode_block false l inp = done none
encode_block true (negsuc l) inp = done none
encode_block true (pos l) inp = do n ← b64encode inp (replicate l 61 ++ 0 ∷ []); done (some n)

pub b64encode_alloc : Bool → List ℕ → Outcome (Option (List ℕ))
b64encode_alloc ok inp = do
  l ← b64encode_len (int32 (length inp))
  encode_block ok l (counted (int32 (length inp)) inp)

-- The same with a block of zeros.
pub decode_block : Bool → ℤ → List ℕ → Outcome (Option (List ℕ))
decode_block false l s = done none
decode_block true (negsuc l) s = done none
decode_block true (pos l) s = do n ← b64decode s (replicate (l + 1) 0); done (some n)

pub b64decode_alloc : Bool → List ℕ → Outcome (Option (List ℕ))
b64decode_alloc ok memory = do
  s ← c_string memory
  l ← b64decode_len (int32 (length s))
  decode_block ok l (counted (int32 (length s)) s)
