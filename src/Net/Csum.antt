-- ===== src/Net/Csum.antt =====
-- The internet checksum of src/net/csum.rs, in its portable form: where the CPU has AVX2, a part of 128
-- bytes or more goes through vector instructions instead. Sums are exact: a u64 holds
-- those of fewer than 2^32 bytes.
pub mod Folding
pub mod Reference
mod Tests
use tinyvmm.Prelude.{
  ℕ, zero, suc, ◌+◌, ◌-◌, ◌*◌, ◌/◌, ◌%◌, Option, none, some, List, [], ◌∷◌, length, take, drop, ltb,
  if◌then◌else◌,
}

-- The loop of `fold16`, of at most `fuel` rounds: none where it has not ended by then.
unfoldable pub fold_loop : ℕ → ℕ → Option ℕ
fold_loop zero sum = if ltb 0xffff sum then none else some sum
fold_loop (suc fuel) sum =
    let rest = fold_loop fuel (sum % 0x1_0000 + sum / 0x1_0000) in
    if ltb 0xffff sum then rest else some sum

-- The result of a loop that ends; the 0 of one that does not is never taken.
abbrev pub ended : Option ℕ → ℕ
ended none = 0
ended (some sum) = sum

-- A round takes a number above 0xffff to a smaller one, so `sum` rounds are enough.
unfoldable pub fold16 : ℕ → ℕ
unfolding fold_loop
fold16 sum = ended (fold_loop sum sum)

-- `swap_bytes` of a u16.
abbrev pub swap_bytes : ℕ → ℕ
swap_bytes n = n % 256 * 256 + n / 256

-- The chunks of 4 bytes as little-endian words, and a tail of 2.
unfoldable pub sum_le16 : List ℕ → ℕ
sum_le16 [] = 0
sum_le16 (a ∷ []) = 0
sum_le16 (lo ∷ hi ∷ []) = lo + hi * 0x100
sum_le16 (a ∷ b ∷ c ∷ []) = 0
sum_le16 (a ∷ b ∷ c ∷ d ∷ rest) = a + b * 0x100 + c * 0x1_0000 + d * 0x100_0000 + sum_le16 rest

unfoldable pub sum_be16 : List ℕ → ℕ
unfolding fold16 sum_le16
sum_be16 words = swap_bytes (fold16 (sum_le16 words))

-- The sum so far, and a first byte that waits for its second.
abbrev pub Sum : Type 0
Sum = ℕ × Option ℕ

abbrev pub last_of : Option ℕ → List ℕ → Option ℕ
last_of leftover [] = leftover
last_of leftover (b ∷ bs) = some b

-- `split_at(len & !1)` and the rest of the loop body.
unfoldable pub add_words : ℕ → Option ℕ → List ℕ → Sum
unfolding sum_be16
add_words sum leftover bytes =
    let even = length bytes / 2 * 2 in
    (sum + sum_be16 (take even bytes), last_of leftover (drop even bytes))

unfoldable pub add_part : Sum → List ℕ → Sum
unfolding add_words
add_part (sum, none) part = add_words sum none part
add_part (sum, some hi) [] = add_words sum (some hi) []
add_part (sum, some hi) (lo ∷ rest) = add_words (sum + (hi * 0x100 + lo)) none rest

unfoldable pub add_parts : Sum → List (List ℕ) → Sum
unfolding add_part
add_parts s [] = s
add_parts s (part ∷ parts) = add_parts (add_part s part) parts

abbrev pub finish : Sum → ℕ
finish (sum, none) = sum
finish (sum, some hi) = sum + hi * 0x100

-- The complement of a u16.
unfoldable pub checksum16 : List (List ℕ) → ℕ
unfolding add_parts fold16
checksum16 parts = 0xffff - fold16 (finish (add_parts (0, none) parts))
