-- ===== src/Net/Csum/Reference.antt =====
-- The checksum of src/net/csum.rs against RFC 1071: the complement of the one's-complement sum of the
-- big-endian 16-bit words of all the bytes, the last one padded with 0.
use tinyvmm.Prelude.{
  ℕ, zero, suc, ◌+◌, ◌-◌, ◌*◌, ◌/◌, ◌%◌, ◌<◌, ◌≡◌, Option, none, some, List, [], ◌∷◌, ◌++◌, length,
  take, drop, length-take, take-append-drop, length-drop, arith, refl, ap, sym, ◌∙◌,
}
use tinyvmm.Net.Csum.{
  sum_le16, sum_be16, swap_bytes, Sum, last_of, add_words, add_part, add_parts, finish, checksum16,
}
use tinyvmm.Net.Csum.Folding.{residue, fold16_lem, residue-add, residue-swap, residue-complement}

abbrev pub word_sum : List ℕ → ℕ
word_sum [] = 0
word_sum (hi ∷ []) = hi * 0x100
word_sum (hi ∷ lo ∷ rest) = hi * 0x100 + lo + word_sum rest

-- All the bytes.
abbrev pub concat : List (List ℕ) → List ℕ
concat [] = []
concat (part ∷ parts) = part ++ concat parts

abbrev pub reference : List (List ℕ) → ℕ
reference parts = 0xffff - residue (word_sum (concat parts))

abbrev Even : List ℕ → Type 0
Even bytes = length bytes % 2 ≡ 0

pub word_sum-append : (xs ys : List ℕ) → Even xs → word_sum (xs ++ ys) ≡ word_sum xs + word_sum ys
word_sum-append [] ys e = omega arith
word_sum-append (x ∷ []) ys e = absurd (omega arith)
word_sum-append (x ∷ y ∷ xs) ys e = omega (arith, word_sum-append xs ys (omega arith))

residue-shift : (x k : ℕ) → (x ≡ 0 → k ≡ 0) → residue (x + 0xffff * k) ≡ residue x
residue-shift zero k h = ap residue {y = 0} (omega (arith, h refl))
residue-shift (suc x) k h = ground arith

-- Four bytes at a time, in the other byte order.
residue-sum_le16 : (xs : List ℕ) → Even xs → residue (256 * sum_le16 xs) ≡ residue (word_sum xs)
unfolding sum_le16
residue-sum_le16 [] e = refl
residue-sum_le16 (a ∷ []) e = absurd (omega arith)
residue-sum_le16 (a ∷ b ∷ []) e = ground arith
residue-sum_le16 (a ∷ b ∷ c ∷ []) e = absurd (omega arith)
residue-sum_le16 (a ∷ b ∷ c ∷ d ∷ rest) e =
    let word = a * 0x100 + b + (c * 0x100 + d) in
    ap residue (regroup (sum_le16 rest))
    ∙ residue-shift (word + 256 * sum_le16 rest) (b + 0x100 * c + 0x1_0001 * d) (λ z. omega arith)
    ∙ sym (residue-add word (256 * sum_le16 rest) 0 ∙ ap residue (omega arith))
    ∙ ap (λ r. residue (word + r + 0)) (residue-sum_le16 rest (omega arith))
    ∙ residue-add word (word_sum rest) 0
    ∙ ap residue (omega arith)
  where
    regroup :
        (t : ℕ)
        → 256 * (a + b * 0x100 + c * 0x1_0000 + d * 0x100_0000 + t)
          ≡ a * 0x100 + b + (c * 0x100 + d) + 256 * t + 0xffff * (b + 0x100 * c + 0x1_0001 * d)
    regroup t = omega arith

sum_be16_lem : (xs : List ℕ) → Even xs → sum_be16 xs ≡ residue (word_sum xs)
unfolding sum_be16
sum_be16_lem xs e =
    ap swap_bytes (fold16_lem (sum_le16 xs)) ∙ residue-swap (sum_le16 xs) ∙ residue-sum_le16 xs e

append_assoc : (xs ys zs : List ℕ) → (xs ++ ys) ++ zs ≡ xs ++ (ys ++ zs)
append_assoc [] ys zs = refl
append_assoc (x ∷ xs) ys zs = ap (λ r. x ∷ r) (append_assoc xs ys zs)

-- The bytes that wait.
abbrev waiting : Option ℕ → List ℕ
waiting none = []
waiting (some b) = b ∷ []

-- What a state says of the sum that it leads to, before the bytes `tail`.
abbrev total : Sum → List ℕ → ℕ
total (sum, left) tail = residue (sum + word_sum (waiting left ++ tail))

add_words-total :
    (sum : ℕ) (bytes tail : List ℕ)
    → total (add_words sum none bytes) tail ≡ residue (sum + word_sum (bytes ++ tail))
unfolding add_words
add_words-total sum bytes tail =
    ap (λ r. residue (sum + r + word_sum (waiting (last_of none odd) ++ tail)))
      (sum_be16_lem words even)
    ∙ residue-add sum (word_sum words) (word_sum (waiting (last_of none odd) ++ tail))
    ∙ ap (λ r. residue (sum + word_sum words + word_sum (r ++ tail))) (one_waits odd short)
    ∙ ap residue (omega (arith, split))
  where
    n : ℕ
    n = length bytes / 2 * 2

    words : List ℕ
    words = take n bytes

    odd : List ℕ
    odd = drop n bytes

    even : Even words
    even = omega (arith, length-take n bytes)

    short : length odd < 2
    short = omega (arith, length-drop n bytes)

    one_waits : (xs : List ℕ) → length xs < 2 → waiting (last_of none xs) ≡ xs
    one_waits [] h = refl
    one_waits (x ∷ []) h = refl
    one_waits (x ∷ y ∷ xs) h = absurd (omega arith)

    split : word_sum (bytes ++ tail) ≡ word_sum words + word_sum (odd ++ tail)
    split =
        ap (λ r. word_sum (r ++ tail)) (sym (take-append-drop n bytes))
        ∙ ap word_sum (append_assoc words odd tail)
        ∙ word_sum-append words (odd ++ tail) even

add_part-total :
    (s : Sum) (part tail : List ℕ) → total (add_part s part) tail ≡ total s (part ++ tail)
unfolding add_part
add_part-total (sum, none) part tail = add_words-total sum part tail
add_part-total (sum, some hi) [] tail = ap residue (omega arith)
add_part-total (sum, some hi) (lo ∷ rest) tail =
    add_words-total (sum + (hi * 0x100 + lo)) rest tail ∙ ap residue (omega arith)

add_parts-total :
    (s : Sum) (parts : List (List ℕ)) → total (add_parts s parts) [] ≡ total s (concat parts)
unfolding add_parts
add_parts-total s [] = refl
add_parts-total s (part ∷ parts) =
    add_parts-total (add_part s part) parts ∙ add_part-total s part (concat parts)

total-finish : (s : Sum) → total s [] ≡ residue (finish s)
total-finish (sum, none) = ap residue (omega arith)
total-finish (sum, some hi) = refl

-- However the bytes are split into parts, the checksum is that of RFC 1071 over all of them.
pub checksum16_lem : (parts : List (List ℕ)) → checksum16 parts ≡ reference parts
unfolding checksum16
checksum16_lem parts =
    ap (λ r. 0xffff - r)
      (fold16_lem (finish (add_parts (0, none) parts))
        ∙ sym (total-finish (add_parts (0, none) parts))
        ∙ add_parts-total (0, none) parts
        ∙ ap residue (omega arith))

pub append-nil : (zs : List ℕ) → zs ++ [] ≡ zs
append-nil [] = refl
append-nil (z ∷ zs) = ap (λ r. z ∷ r) (append-nil zs)

pub checksum16-lt : (parts : List (List ℕ)) → checksum16 parts < 0x1_0000
checksum16-lt parts = omega (arith, checksum16_lem parts)

-- The checksum of bytes whose field, at an even offset, is 0.
pub checksum16-blank :
    (parts : List (List ℕ)) (xs ys : List ℕ)
    → length xs % 2 ≡ 0
    → concat parts ≡ xs ++ (0 ∷ 0 ∷ ys)
    → checksum16 parts ≡ 0xffff - residue (word_sum xs + word_sum ys)
checksum16-blank parts xs ys e f =
    checksum16_lem parts
    ∙ ap (λ r. 0xffff - residue r) (ap word_sum f ∙ word_sum-append xs (0 ∷ 0 ∷ ys) e ∙ omega arith)

-- Bytes pass the check whose field holds what completes their sum.
pub checksum16-filled :
    (parts : List (List ℕ)) (xs ys : List ℕ) (c : ℕ)
    → length xs % 2 ≡ 0
    → concat parts ≡ xs ++ (c / 0x100 ∷ c % 0x100 ∷ ys)
    → residue (word_sum xs + word_sum ys + c) ≡ 0xffff
    → checksum16 parts ≡ 0
checksum16-filled parts xs ys c e f h =
    checksum16_lem parts
    ∙ ap (λ r. 0xffff - r)
        (ap residue
            (ap word_sum f ∙ word_sum-append xs (c / 0x100 ∷ c % 0x100 ∷ ys) e ∙ omega arith)
          ∙ h)

-- A checksum of bytes with a field of zeros at an even offset, put into that field in network order: the
-- checksum of the bytes is 0 then, by which the receiver accepts them.
pub checksum16-verifies :
    (xs ys : List ℕ)
    → length xs % 2 ≡ 0
    → let c = checksum16 ((xs ++ (0 ∷ 0 ∷ ys)) ∷ []) in
      checksum16 ((xs ++ (c / 0x100 ∷ c % 0x100 ∷ ys)) ∷ []) ≡ 0
checksum16-verifies xs ys e =
    let c = checksum16 ((xs ++ (0 ∷ 0 ∷ ys)) ∷ []) in
    let blank = checksum16-blank ((xs ++ (0 ∷ 0 ∷ ys)) ∷ []) xs ys e (append-nil _) in
    checksum16-filled ((xs ++ (c / 0x100 ∷ c % 0x100 ∷ ys)) ∷ []) xs ys c e (append-nil _) (
      ap (λ r. residue (word_sum xs + word_sum ys + r)) blank
      ∙ residue-complement (word_sum xs + word_sum ys))
