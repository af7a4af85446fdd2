-- ===== src/Vcdiff/Cache/History.antt =====
-- What the cache remembers of the addresses of a window, and that its vectors keep their sizes.
use rust_crates.Prelude.{
  ℕ, zero, suc, ◌-◌, ◌%◌, ◌<◌, ◌≡◌, refl, sym, ap, ◌∙◌, some, List, [], ◌∷◌, arith, Bool-cases, inl,
  inr,
}
use rust_crates.Prelude.{
  IsU64, All, length, length-set, length-replicate, get_elem?, set, replicate, get_elem?-set_self,
  get_elem?-set_ne, ◌==◌, ==_iff, if◌then◌else◌,
}
use rust_crates.Vcdiff.Cache.{AddressCache, new, update}

pub record IsValid (cache : AddressCache) : Type 0 where
  pub near_size : length cache.near ≡ 4
  pub same_len : length cache.same ≡ 768
  pub next_small : cache.next_near < 4
  pub near_words : All IsU64 cache.near
  pub same_words : All IsU64 cache.same

All-replicate : (n : ℕ) → All IsU64 (replicate n 0)
All-replicate zero = tt
All-replicate (suc n) = (omega arith, All-replicate n)

All-set : (xs : List ℕ) (i v : ℕ) → All IsU64 xs → IsU64 v → All IsU64 (set xs i v)
All-set [] i v h w = tt
All-set (x ∷ xs) zero v (p, ps) w = (w, ps)
All-set (x ∷ xs) (suc i) v (p, ps) w = (p, All-set xs i v ps w)

pub IsValid-new : IsValid new
unfolding new
IsValid-new = record {
  near_size = length-replicate {A = ℕ} 4 0;
  same_len = length-replicate {A = ℕ} 768 0;
  next_small = omega arith;
  near_words = All-replicate 4;
  same_words = All-replicate 768;
}

pub update-IsValid :
    (a : ℕ) {cache : AddressCache} → IsU64 a → IsValid cache → IsValid (update a cache)
unfolding update
update-IsValid a {cache} w v = record {
  near_size = length-set cache.near cache.next_near a ∙ v.near_size;
  same_len = length-set cache.same (a % 768) a ∙ v.same_len;
  next_small = omega arith;
  near_words = All-set cache.near cache.next_near a v.near_words w;
  same_words = All-set cache.same (a % 768) a v.same_words w;
}

-- The cache after the addresses of a list, the last one first.
unfoldable pub remembering : List ℕ → AddressCache
remembering [] = new
remembering (a ∷ earlier) = update a (remembering earlier)

-- The last address of the list that falls into a slot of the SAME cache; 0 if none does.
unfoldable pub latest : ℕ → List ℕ → ℕ
latest slot [] = 0
latest slot (a ∷ earlier) = if a % 768 == slot then a else latest slot earlier

remembering-next_near : (h : List ℕ) → (remembering h).next_near ≡ length h % 4
unfolding remembering new update
remembering-next_near [] = refl
remembering-next_near (a ∷ h) = omega (arith, remembering-next_near h)

remembering-near_size : (h : List ℕ) → length (remembering h).near ≡ 4
unfolding remembering new update
remembering-near_size [] = refl
remembering-near_size (a ∷ h) =
    length-set (remembering h).near (remembering h).next_near a ∙ remembering-near_size h

remembering-same_size : (h : List ℕ) → length (remembering h).same ≡ 768
unfolding remembering new update
remembering-same_size [] = length-replicate {A = ℕ} 768 0
remembering-same_size (a ∷ h) =
    length-set (remembering h).same (a % 768) a ∙ remembering-same_size h

-- Of the last four addresses, the one that lies `j` back stands in the NEAR slot that was current
-- when it was recorded.
pub remembering-near :
    (h : List ℕ) (j : ℕ)
    → j < 4
    → j < length h
    → get_elem? (remembering h).near ((length h - 1 - j) % 4) ≡ get_elem? h j
unfolding remembering update
remembering-near [] j h4 h = absurd (omega arith)
remembering-near (a ∷ h) zero h4 hl =
    let e : (suc (length h) - 1 - 0) % 4 ≡ (remembering h).next_near =
      omega (arith, remembering-next_near h) in
    ap (λ (k : ℕ). get_elem? (set (remembering h).near (remembering h).next_near a) k) e
    ∙ get_elem?-set_self (remembering h).near (remembering h).next_near a
        (omega (arith, remembering-next_near h, remembering-near_size h))
remembering-near (a ∷ h) (suc j) h4 hl =
    let e : (suc (length h) - 1 - suc j) % 4 ≡ (length h - 1 - j) % 4 =
      (let d : suc (length h) - 1 - suc j ≡ length h - 1 - j = omega arith in
        ap (λ (k : ℕ). k % 4) d) in
    get_elem?-set_ne (remembering h).near (remembering h).next_near
      ((suc (length h) - 1 - suc j) % 4) a (omega (arith, remembering-next_near h))
    ∙ ap (λ (k : ℕ). get_elem? (remembering h).near k) e
    ∙ remembering-near h j (omega arith) (omega arith)

get_elem?-replicate : (n i : ℕ) → i < n → get_elem? {A = ℕ} (replicate n 0) i ≡ some 0
get_elem?-replicate zero i h = absurd (omega arith)
get_elem?-replicate (suc n) zero h = refl
get_elem?-replicate (suc n) (suc i) h = get_elem?-replicate n i (omega arith)

-- Each of the 768 SAME slots holds the last address that is congruent to it modulo 768, or 0 if no
-- address of the window was.
pub remembering-same :
    (h : List ℕ) (slot : ℕ)
    → slot < 768
    → get_elem? (remembering h).same slot ≡ some (latest slot h)
unfolding remembering update latest
remembering-same [] slot l = unfold new in get_elem?-replicate 768 slot l
remembering-same (a ∷ h) slot l = elim (Bool-cases (a % 768 == slot)) [
  | inl hit ↦
      let e = (==_iff (a % 768) slot).0 hit in
      rw hit (
        ap (λ (k : ℕ). get_elem? (set (remembering h).same (a % 768) a) k) (sym e)
        ∙ get_elem?-set_self (remembering h).same (a % 768) a
            (omega (arith, remembering-same_size h)))
  | inr miss ↦ rw miss (
      get_elem?-set_ne (remembering h).same (a % 768) slot a (ground arith)
      ∙ remembering-same h slot l)
]
