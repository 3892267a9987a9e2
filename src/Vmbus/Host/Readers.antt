-- ===== src/Vmbus/Host/Readers.antt =====
-- The readers of a snapshot in src/vmbus/mod.rs, on what the writer wrote.
use tinyvmm.Prelude.{
  ℕ, suc, ◌^◌, ◌≤◌, ◌<◌, ◌≡◌, Bool, true, false, Option, none, some, List, [], ◌∷◌, ◌++◌, All,
  length, take, drop, leb, ltb, ◌>>=◌, if◌then◌else◌, from_le_bytes, to_le_bytes,
  length-to_le_bytes, from_le_bytes-to_le_bytes, length-append, arith, refl, ap, ap₂, sym, ◌∙◌,
}
use mathlib.Core.List.{append_assoc}
use tinyvmm.Vmbus.Host.Snapshot.{
  message_size, save_messages, save_pfns, Reader, done, before, passing, bytes, read_u32, read_u64,
  count, collect,
}

-- The reader takes a value from the front of what follows, and leaves the rest.
pub record Reads {A : Type 0} (r : Reader A) (enc : List ℕ) (a : A) : Type 0 where
  pub gives : (rest : List ℕ) → r (enc ++ rest) ≡ some (a, rest)

pub Reads-done : {A : Type 0} → (a : A) → Reads (done a) [] a
Reads-done a = record { gives = λ rest. refl }

module _ {A B : Type 0} (r : Reader A) (k : A → Reader B) where
  pub Reads-before :
      (e e' : List ℕ) (a : A) (b : B)
      → Reads r e a
      → Reads (k a) e' b
      → Reads (before r k) (e ++ e') b
  Reads-before e e' a b h h' = record {
    gives = λ rest.
        ap (before r k) (append_assoc e e' rest)
        ∙ ap (λ o. o >>= λ p. k p.0 p.1) (h.gives (e' ++ rest))
        ∙ h'.gives rest;
  }

  pub Reads-end :
      (e : List ℕ) (a : A) (b : B) → Reads r e a → Reads (k a) [] b → Reads (before r k) e b
  Reads-end e a b h h' = record {
    gives = λ rest. ap (λ o. o >>= λ p. k p.0 p.1) (h.gives rest) ∙ h'.gives rest;
  }

pub Reads-passing :
    {A : Type 0}
    → (b : Bool) (r : Reader A) (e : List ℕ) (a : A) → b ≡ true
    → Reads r e a
    → Reads (passing b r) e a
Reads-passing b r e a ok h = record {
  gives = λ rest. ap (λ x. if x then r (e ++ rest) else none) ok ∙ h.gives rest;
}

take-front : {A : Type 0} → (xs ys : List A) → take (length xs) (xs ++ ys) ≡ xs
take-front [] ys = refl
take-front (x ∷ xs) ys = ap (x ∷◌) (take-front xs ys)

drop-front : {A : Type 0} → (xs ys : List A) → drop (length xs) (xs ++ ys) ≡ ys
drop-front [] ys = refl
drop-front (x ∷ xs) ys = drop-front xs ys

pub bytes-Reads : (n : ℕ) (m : List ℕ) → length m ≡ n → Reads (bytes n) m m
unfolding bytes
bytes-Reads n m e = record {
  gives = λ rest. enough rest ∙ ap₂ (λ x y. some (x, y)) (front rest) (back rest);
}
  where
    enough :
        (rest : List ℕ)
        → if◌then◌else◌ {A = Option (List ℕ × List ℕ)}
            (ltb (length (m ++ rest)) n)
            none
            (some (take n (m ++ rest), drop n (m ++ rest)))
          ≡ some (take n (m ++ rest), drop n (m ++ rest))
    enough rest =
        let l = length-append m rest in
        let long : ltb (length (m ++ rest)) n ≡ false = ground (arith, l, e) in
        ap
          (λ b.
            if◌then◌else◌ {A = Option (List ℕ × List ℕ)} b none
              (some (take n (m ++ rest), drop n (m ++ rest))))
          long

    front : (rest : List ℕ) → take n (m ++ rest) ≡ m
    front rest = ap (λ i. take i (m ++ rest)) (sym e) ∙ take-front m rest

    back : (rest : List ℕ) → drop n (m ++ rest) ≡ rest
    back rest = ap (λ i. drop i (m ++ rest)) (sym e) ∙ drop-front m rest

pub u32-Reads : (n : ℕ) → n < 2 ^ 32 → Reads read_u32 (to_le_bytes 4 n) n
unfolding read_u32
u32-Reads n h = record {
  gives = λ rest.
      ap (λ o. o >>= λ p. some (from_le_bytes p.0, p.1))
        (Reads.gives (bytes-Reads 4 (to_le_bytes 4 n) (length-to_le_bytes 4 n)) rest)
      ∙ ap (λ v. some (v, rest)) (from_le_bytes-to_le_bytes 4 n h);
}

u64-Reads : (n : ℕ) → n < 2 ^ 64 → Reads read_u64 (to_le_bytes 8 n) n
unfolding read_u64
u64-Reads n h = record {
  gives = λ rest.
      ap (λ o. o >>= λ p. some (from_le_bytes p.0, p.1))
        (Reads.gives (bytes-Reads 8 (to_le_bytes 8 n) (length-to_le_bytes 8 n)) rest)
      ∙ ap (λ v. some (v, rest)) (from_le_bytes-to_le_bytes 8 n h);
}

pub leb-true : (n m : ℕ) → n ≤ m → leb n m ≡ true
leb-true n m h = ground (arith, h)

pub ltb-true : (n m : ℕ) → n < m → ltb n m ≡ true
ltb-true n m h = ground (arith, h)

pub count-Reads : (max n : ℕ) → n ≤ max → n < 2 ^ 32 → Reads (count max) (to_le_bytes 4 n) n
unfolding count
count-Reads max n h lt =
    Reads-end read_u32 (λ n. passing (leb n max) (done n)) (to_le_bytes 4 n) n n (u32-Reads n lt)
      (Reads-passing (leb n max) (done n) [] n (leb-true n max h) (Reads-done n))

collect-Reads :
    {A : Type 0}
    → (r : Reader A) (n : ℕ) (e es : List ℕ) (a : A) (vs : List A) → Reads r e a
    → Reads (collect n r) es vs
    → Reads (collect (suc n) r) (e ++ es) (a ∷ vs)
collect-Reads r n e es a vs h hs =
    Reads-before r (λ a. before (collect n r) λ rest. done (a ∷ rest)) e es a (a ∷ vs) h
      (Reads-end (collect n r) (λ rest. done (a ∷ rest)) es vs (a ∷ vs) hs (Reads-done (a ∷ vs)))

pub messages-Reads :
    (ms : List (List ℕ))
    → All (λ m. length m ≡ message_size) ms
    → Reads (collect (length ms) (bytes message_size)) (save_messages ms) ms
messages-Reads [] a = Reads-done []
messages-Reads (m ∷ ms) (e, a) =
    collect-Reads (bytes message_size) (length ms) m (save_messages ms) m ms
      (bytes-Reads message_size m e) (messages-Reads ms a)

pub pfns-Reads :
    (pfns : List ℕ)
    → All (λ pfn. pfn < 2 ^ 64) pfns
    → Reads (collect (length pfns) read_u64) (save_pfns pfns) pfns
pfns-Reads [] a = Reads-done []
pfns-Reads (pfn ∷ pfns) (h, a) =
    collect-Reads read_u64 (length pfns) (to_le_bytes 8 pfn) (save_pfns pfns) pfn pfns
      (u64-Reads pfn h) (pfns-Reads pfns a)
