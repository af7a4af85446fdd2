-- ===== src/Vcdiff/SourceCopy/Exact.antt =====
-- `read_source_exact` gives the next bytes of the source, whatever pieces the source gives out.
use rust_crates.Prelude.{
  ℕ, zero, suc, ◌+◌, ◌-◌, ◌≤◌, ◌<◌, ◌≡◌, refl, sym, ap, ap₂, ◌∙◌, subst, Option, List, [], ◌∷◌,
  ◌++◌, arith,
}
use rust_crates.Prelude.{
  IsU64, length, take, drop, length-take, length-drop, drop-drop, take-take-drop,
}
use rust_crates.Vcdiff.Error.{ok, ByteRange}
use rust_crates.Vcdiff.Stream.{Stream, ReadsBytes, done}
use rust_crates.Vcdiff.SourceCopy.{read_source_exact}

nonempty : (l : List ℕ) → 0 < length l → (b : ℕ) × (rest : List ℕ) × (l ≡ b ∷ rest)
nonempty [] h = absurd (omega arith)
nonempty (b ∷ rest) h = (b, rest, refl)

module _ {S : Stream} (source_law : ReadsBytes S) where
  -- The source holds `content` and stands at `at`.
  pub record Standing (content : List ℕ) (at : ℕ) (source : S.State) : Type 0 where
    pub holds : source_law.bytes source ≡ content
    pub stands : source_law.position source ≡ at

  pub read_source_exact_lem :
      (fuel wanted at : ℕ) (content : List ℕ) (range : ByteRange) (window : Option ℕ)
      (source : S.State)
      → wanted ≤ fuel
      → Standing content at source
      → at + wanted ≤ length content
      → IsU64 (length content)
      → (source' : S.State) × (read_source_exact S fuel wanted range window source
          ≡ ok (take wanted (drop at content), source'))
        × Standing content (at + wanted) source'
  unfolding read_source_exact
  read_source_exact_lem fuel zero at content range window source f s h u =
      let e : at ≡ at + 0 = omega arith in
      (source, refl, subst (λ (n : ℕ). Standing content n source) e s)
  read_source_exact_lem zero (suc wanted) at content range window source f s h u =
      absurd (omega arith)
  read_source_exact_lem (suc fuel) (suc wanted) at content range window source f s h u =
      let k : ℕ = source_law.read_count (suc wanted) source in
      let next : S.State = source_law.read_next (suc wanted) source in
      let positive : 0 < k =
        source_law.read_some (suc wanted) source (omega arith)
          (rw s.holds (omega (arith, s.stands))) in
      let fits : k ≤ suc wanted = source_law.read_fits (suc wanted) source in
      let size : length (take k (drop at content)) ≡ k =
        omega (arith, length-take k (drop at content), length-drop at content) in
      let (b, bs, shape) = nonempty (take k (drop at content)) (omega arith) in
      let gives : S.read (suc wanted) source ≡ (done (b ∷ bs), next) =
        source_law.read_gives (suc wanted) source tt (rw s.holds (omega (arith, s.stands)))
          (rw s.holds u)
        ∙ (λ j. (done (take k (drop (s.stands j) (s.holds j))), next))
        ∙ (λ j. (done (shape j), next)) in
      let count : suc (length bs) ≡ k = sym (ap (λ (l : List ℕ). length l) shape) ∙ size in
      let rest : ℕ = suc wanted - suc (length bs) in
      let (source', e', s') =
        read_source_exact_lem fuel rest (at + k) content range window next (omega arith)
          (record {
            holds = source_law.read_keeps (suc wanted) source ∙ s.holds;
            stands = omega (arith, source_law.read_moves (suc wanted) source, s.stands);
          })
          (omega arith) u in
      let sum : k + rest ≡ suc wanted = omega arith in
      let ends : at + k + rest ≡ at + suc wanted = omega arith in
      let whole : (b ∷ bs) ++ take rest (drop (at + k) content)
          ≡ take (suc wanted) (drop at content) =
        ap₂ (λ (x y : List ℕ). x ++ take rest y) (sym shape) (sym (drop-drop at k content))
        ∙ take-take-drop k rest (drop at content)
        ∙ ap (λ (n : ℕ). take n (drop at content)) sum in
      (
        source',
        rw (gives, e') (λ j. ok (whole j, source')),
        subst (λ (n : ℕ). Standing content n source') ends s',
      )
