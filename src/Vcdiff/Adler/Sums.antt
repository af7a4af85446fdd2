-- ===== src/Vcdiff/Adler/Sums.antt =====
-- The chunked sums of `Adler32::update` against the byte-by-byte definition of RFC 1950.
use rust_crates.Prelude.{
  ℕ, zero, suc, ◌+◌, ◌*◌, ◌%◌, ◌≤◌, ◌<◌, ◌≡◌, refl, sym, ap, ◌∙◌, List, [], ◌∷◌, ◌++◌, arith,
}
use rust_crates.Prelude.{
  IsByte, All, take, drop, length, length-take, length-drop, take-append-drop,
}
use rust_crates.Vcdiff.Adler.{
  Adler32, modulus, reduction_chunk, new, accumulate, update_chunk, update_chunks, update,
}

-- RFC 1950, section 8.2: both sums are reduced after each byte.
unfoldable pub adler_fold : List ℕ → Adler32 → Adler32
adler_fold [] a = a
adler_fold (byte ∷ bytes) a =
    let s1 = (a.s1 + byte) % modulus in
    adler_fold bytes (record { s1 = s1; s2 = (a.s2 + s1) % modulus })

pub record IsReduced (a : Adler32) : Type 0 where
  pub s1_small : a.s1 < modulus
  pub s2_small : a.s2 < modulus

pub IsReduced-new : IsReduced new
unfolding new
IsReduced-new = omega arith

-- The unreduced sums stay below these bounds while `room` bytes are left, so they do not wrap.
accumulate-adler_fold :
    (bytes : List ℕ) (room s1 s2 : ℕ) (a : Adler32)
    → All IsByte bytes
    → length bytes ≤ room
    → room ≤ reduction_chunk
    → s1 + room * 255 ≤ 1481281
    → s2 + room * 1481281 ≤ 8224137633
    → a.s1 ≡ s1 % modulus
    → a.s2 ≡ s2 % modulus
    → ((adler_fold bytes a).s1 ≡ (accumulate bytes s1 s2).0 % modulus)
      × ((adler_fold bytes a).s2 ≡ (accumulate bytes s1 s2).1 % modulus)
unfolding adler_fold accumulate
accumulate-adler_fold [] room s1 s2 a b l r h1 h2 e1 e2 = (e1, e2)
accumulate-adler_fold (x ∷ xs) zero s1 s2 a b l r h1 h2 e1 e2 = absurd (omega arith)
accumulate-adler_fold (x ∷ xs) (suc room) s1 s2 a (hx, hxs) l r h1 h2 e1 e2 =
    let s1' : ℕ = (s1 + x) % 0x1_0000_0000_0000_0000 in
    let s2' : ℕ = (s2 + s1') % 0x1_0000_0000_0000_0000 in
    let t1 : ℕ = (a.s1 + x) % modulus in
    let fact1 : s1' ≡ s1 + x = omega arith in
    let fact2 : s2' ≡ s2 + s1' = omega arith in
    accumulate-adler_fold xs room s1' s2' (record { s1 = t1; s2 = (a.s2 + t1) % modulus }) hxs
      (omega arith) (omega arith) (omega arith) (omega arith) (omega arith) (omega arith)

pub All-append : (xs ys : List ℕ) → All IsByte xs → All IsByte ys → All IsByte (xs ++ ys)
All-append [] ys h k = k
All-append (x ∷ xs) ys (p, ps) k = (p, All-append xs ys ps k)

pub adler_fold-IsReduced :
    (bytes : List ℕ) {a : Adler32} → IsReduced a → IsReduced (adler_fold bytes a)
unfolding adler_fold
adler_fold-IsReduced [] h = h
adler_fold-IsReduced (x ∷ xs) h = adler_fold-IsReduced xs (omega arith)

pub adler_fold-append :
    (xs ys : List ℕ) (a : Adler32) → adler_fold (xs ++ ys) a ≡ adler_fold ys (adler_fold xs a)
unfolding adler_fold
adler_fold-append [] ys a = refl
adler_fold-append (x ∷ xs) ys a = adler_fold-append xs ys _

update_chunk-adler_fold :
    (chunk : List ℕ) (a : Adler32)
    → IsReduced a
    → All IsByte chunk
    → length chunk ≤ reduction_chunk
    → update_chunk chunk a ≡ adler_fold chunk a
unfolding update_chunk
update_chunk-adler_fold chunk a h b l =
    let sums =
      accumulate-adler_fold chunk reduction_chunk a.s1 a.s2 a b l (omega arith) (omega arith)
        (omega arith) (omega arith) (omega arith) in
    ground (arith, sums)

pub IsByte-take : (n : ℕ) (xs : List ℕ) → All IsByte xs → All IsByte (take n xs)
IsByte-take zero xs h = tt
IsByte-take (suc n) [] h = tt
IsByte-take (suc n) (x ∷ xs) (p, ps) = (p, IsByte-take n xs ps)

pub IsByte-drop : (n : ℕ) (xs : List ℕ) → All IsByte xs → All IsByte (drop n xs)
IsByte-drop zero xs h = h
IsByte-drop (suc n) [] h = tt
IsByte-drop (suc n) (x ∷ xs) (p, ps) = IsByte-drop n xs ps

update_chunk-IsReduced : (chunk : List ℕ) (a : Adler32) → IsReduced (update_chunk chunk a)
unfolding update_chunk
update_chunk-IsReduced chunk a = omega arith

length-take-le : (n : ℕ) (xs : List ℕ) → length (take n xs) ≤ n
length-take-le n xs = omega (arith, length-take n xs)

length-drop-le :
    (n rounds : ℕ) (xs : List ℕ) → 0 < n → length xs ≤ suc rounds → length (drop n xs) ≤ rounds
length-drop-le n rounds xs p l = omega (arith, length-drop n xs)

adler_fold-split :
    (n : ℕ) (xs : List ℕ) (a : Adler32)
    → adler_fold (drop n xs) (adler_fold (take n xs) a) ≡ adler_fold xs a
adler_fold-split n xs a =
    sym (adler_fold-append (take n xs) (drop n xs) a)
    ∙ ap (λ ys. adler_fold ys a) (take-append-drop n xs)

update_chunks-adler_fold :
    (rounds : ℕ) (bytes : List ℕ) (a : Adler32)
    → IsReduced a
    → All IsByte bytes
    → length bytes ≤ rounds
    → update_chunks rounds bytes a ≡ adler_fold bytes a
unfolding update_chunks
update_chunks-adler_fold rounds [] a h b l = unfold adler_fold in refl
update_chunks-adler_fold zero (x ∷ xs) a h b l = absurd (omega arith)
update_chunks-adler_fold (suc rounds) (x ∷ xs) a h b l =
    let front : List ℕ = take reduction_chunk (x ∷ xs) in
    let back : List ℕ = drop reduction_chunk (x ∷ xs) in
    update_chunks-adler_fold rounds back (update_chunk front a) (update_chunk-IsReduced front a)
      (IsByte-drop reduction_chunk (x ∷ xs) b)
      (length-drop-le reduction_chunk rounds (x ∷ xs) (omega arith) l)
    ∙ ap (adler_fold back) (
        update_chunk-adler_fold front a h (IsByte-take reduction_chunk (x ∷ xs) b)
          (length-take-le reduction_chunk (x ∷ xs)))
    ∙ adler_fold-split reduction_chunk (x ∷ xs) a

-- From reduced sums, the chunked update of any bytes in wrapping `u64` arithmetic is the
-- byte-by-byte definition of RFC 1950, which reduces both sums after each byte.
pub update-adler_fold :
    (bytes : List ℕ) (a : Adler32)
    → IsReduced a
    → All IsByte bytes
    → update bytes a ≡ adler_fold bytes a
unfolding update
update-adler_fold bytes a h b = update_chunks-adler_fold (length bytes) bytes a h b (omega arith)

-- The checksum may be fed in pieces: updating with one piece and then another is updating with both
-- at once, wherever the pieces are cut, and the sums stay reduced.
pub update-append :
    (xs ys : List ℕ) (a : Adler32)
    → IsReduced a
    → All IsByte xs
    → All IsByte ys
    → (update ys (update xs a) ≡ update (xs ++ ys) a) × IsReduced (update xs a)
update-append xs ys a h bx by =
    let first = update-adler_fold xs a h bx in
    let kept : IsReduced (update xs a) = rw first (adler_fold-IsReduced xs h) in
    (
      update-adler_fold ys (update xs a) kept by
          ∙ ap (adler_fold ys) first
          ∙ sym (adler_fold-append xs ys a)
          ∙ sym (update-adler_fold (xs ++ ys) a h (All-append xs ys bx by)),
      kept,
    )
