-- ===== src/Vcdiff/Djw/Total.antt =====
-- `decode_section` always ends: with the bytes of the section, or with an error.
use rust_crates.Prelude.{
  ℕ, suc, ◌+◌, ◌-◌, ◌*◌, ◌/◌, ◌≤◌, ◌<◌, ◌≡◌, refl, ◌∙◌, List, [], ◌++◌, arith, ◌⊎◌, inl, inr,
  replicate,
}
use rust_crates.Prelude.{ltb, ◌==◌, if◌then◌else◌, length, length-append, Bool-cases}
use rust_crates.Vcdiff.Error.{ok, ◌>>=◌, refuse, invalid_field}
use rust_crates.Vcdiff.Stream.{Stream, ReadsBytes}
use rust_crates.Vcdiff.Input
use rust_crates.Vcdiff.Input.{DeltaInput}
use rust_crates.Vcdiff.Input.Reading.{Reading}
use rust_crates.Vcdiff.Djw.Fault.{format_error}
use rust_crates.Vcdiff.Djw.Bits
use rust_crates.Vcdiff.Djw.Bits.{BitStream, context, read_field}
use rust_crates.Vcdiff.Djw.Book.{PrefixBook, empty_book}
use rust_crates.Vcdiff.Djw.Section.{
  allocate_selectors, build_books, body_loop, read_lengths, read_selectors, decode_section,
  sector_step, max_groups,
}
use rust_crates.Vcdiff.Djw.Canonical.{pow2}
use rust_crates.Vcdiff.Djw.Settling.{
  Settles, gives, Settles-bind, Settles-map, refuse-Settles, IsInSection,
}
use rust_crates.Vcdiff.Djw.Tables.{build_books-Settles}
use rust_crates.Vcdiff.Djw.Sectors.{
  chunked-all, sectors-cover, from_start, kept, selectors-Settles, body_loop-Settles,
}
use rust_crates.Vcdiff.Djw.Reading.{
  read_field-Settles, read_lengths-Settles, read_selectors-Settles,
}

module _ {D : Stream} (law : ReadsBytes D) (content : List ℕ) where
  -- The size of a sector.
  sector_size-Settles :
      (fuel group_count output_len : ℕ) (bits : BitStream D)
      → IsInSection law content bits
      → 0 < output_len
      → Settles
          (λ (sector_size, bits'). (0 < sector_size) × IsInSection law content bits')
          (if group_count == 1 then ok (output_len, bits) else (do
            (steps, b2) ← read_field (suc fuel) 5 bits
            ok ((steps + 1) * sector_step, b2)))
  sector_size-Settles fuel group_count output_len bits s h = elim (Bool-cases (group_count == 1)) [
    | inl one ↦ rw one (gives (output_len, bits) refl (h, s))
    | inr many ↦ rw many (
        Settles-bind (read_field (suc fuel) 5 bits) _
          (read_field-Settles law content fuel 5 bits s (omega arith))
          (λ (steps, b2) (_, s'). gives ((steps + 1) * sector_step, b2) refl (omega arith, s')))
  ]

  read_selectors_or_skip-Settles :
      (fuel group_count count : ℕ) (selectors : List ℕ) (bits : BitStream D)
      → IsInSection law content bits
      → (group_count ≡ 1) ⊎ (length selectors ≡ count)
      → Settles
          (λ (selectors', bits').
            ((group_count ≡ 1) ⊎ (length selectors' ≡ count)) × IsInSection law content bits')
          (if ltb 1 group_count
            then read_selectors (suc fuel) group_count selectors bits
            else ok (selectors, bits))
  read_selectors_or_skip-Settles fuel group_count count selectors bits s h =
      elim (Bool-cases (ltb 1 group_count)) [
        | inr few ↦ rw few (gives (selectors, bits) refl (h, s))
        | inl many ↦ rw many (
            Settles-map (λ _ (same, s'). (kept group_count count selectors _ same h, s'))
              (read_selectors-Settles law content fuel group_count selectors bits s))
      ]

  -- All behind the size of a sector.
  sectors-Settles :
      (fuel group_count output_len sector_size active_memory limit : ℕ) (b2 : BitStream D)
      → IsInSection law content b2
      → 0 < sector_size
      → group_count ≤ 8
      → Settles
          (λ (output, after). (length output ≡ output_len) × Reading law content after)
          (do
            let sector_count : ℕ = (output_len + (sector_size - 1)) / sector_size
            selectors ←
                if group_count == 1
                then ok []
                else allocate_selectors sector_count active_memory limit (context b2)
            (all_lengths, b3) ← read_lengths (suc fuel) group_count b2
            built ← build_books group_count all_lengths (context b3)
            let books : List PrefixBook = built ++ replicate (max_groups - group_count) empty_book
            (selectors', b4) ←
                if ltb 1 group_count
                then read_selectors (suc fuel) group_count selectors b3
                else ok (selectors, b3)
            (output, b5) ←
                body_loop sector_count
                  (suc fuel)
                  0
                  output_len
                  books
                  group_count
                  selectors'
                  sector_size
                  b4
            ok (output, b5.input))
  sectors-Settles fuel group_count output_len sector_size active_memory limit b2 s2 positive few =
      let sector_count : ℕ = (output_len + (sector_size - 1)) / sector_size in
      Settles-bind _ _ (selectors-Settles group_count sector_count active_memory limit (context b2))
        (λ selectors chosen.
          Settles-bind (read_lengths (suc fuel) group_count b2) _
            (read_lengths-Settles law content fuel group_count b2 s2)
            (λ (all_lengths, b3) s3.
              Settles-bind (build_books group_count all_lengths (context b3)) _
                (build_books-Settles group_count all_lengths (context b3))
                (λ built same.
                  let books : List PrefixBook =
                    built ++ replicate (max_groups - group_count) empty_book in
                  let enough : group_count ≤ length books = omega (
                    arith,
                    same,
                    length-append built (replicate (max_groups - group_count) empty_book),
                  ) in
                  Settles-bind _ _
                    (read_selectors_or_skip-Settles fuel group_count sector_count selectors b3 s3
                      chosen)
                    (λ (selectors', b4) (chosen', s4).
                      Settles-bind
                        (body_loop sector_count (suc fuel) 0 output_len books group_count selectors'
                          sector_size b4)
                        _
                        (body_loop-Settles law content sector_count fuel 0 output_len group_count
                          sector_size books selectors' b4 s4 enough
                          (from_start group_count sector_count selectors' chosen'))
                        (λ (output, b5) (size, s5).
                          gives (output, b5.input) refl
                            (
                              size
                                  ∙ chunked-all sector_count output_len sector_size
                                      (sectors-cover output_len sector_size positive),
                              s5.reading,
                            ))))))

  -- From an input that stands in the delta, `decode_section` ends: it gives as many bytes as the output has,
  -- and the input still reads the delta from where the section was read to, or it reports an error. It
  -- neither panics nor runs out of rounds, whatever the bytes of the section are.
  pub decode_section-Settles :
      (fuel section_end output_len active_memory limit : ℕ) (input : DeltaInput D)
      → Reading law content input
      → section_end ≤ length content
      → Settles
          (λ (output, after). (length output ≡ output_len) × Reading law content after)
          (decode_section (suc fuel) input section_end output_len active_memory limit)
  unfolding decode_section Bits.new pow2
  decode_section-Settles fuel section_end output_len active_memory limit input r within =
      let start : BitStream D = Bits.new input section_end in
      Settles-bind (refuse (output_len == 0) (format_error (Input.context input) invalid_field)) _
        (refuse-Settles (output_len == 0) (format_error (Input.context input) invalid_field))
        (λ _ nonempty.
          Settles-bind (read_field (suc fuel) 3 start) _
            (read_field-Settles law content fuel 3 start
              (record { reading = r; used_fits = omega arith; within = within }) (omega arith))
            (λ (groups, b1) (few, s1).
              let group_count : ℕ = groups + 1 in
              Settles-bind _ _
                (sector_size-Settles fuel group_count output_len b1 s1 (ground (arith, nonempty)))
                (λ (sector_size, b2) (positive, s2).
                  sectors-Settles fuel group_count output_len sector_size active_memory limit b2 s2
                    positive (omega (arith, few)))))
