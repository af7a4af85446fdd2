-- ===== src/Vcdiff/Decoder/Answering.antt =====
-- What an instruction comes to on any sections; the ADD and the RUN.
use rust_crates.Prelude.{
  ℕ, ◌+◌, ◌-◌, ◌≤◌, ◌≡◌, ◌⊎◌, inl, inr, refl, sym, ap, ◌∙◌, subst, List, ◌∷◌, ◌++◌, arith, true,
  Bool-cases,
}
use rust_crates.Prelude.{
  IsByte, All, length, take, drop, replicate, length-take, length-append, length-replicate,
  take-append-drop, ltb, leb, lt→ltb,
}
use native.Mathlib.Decide.{dec_lt}
use rust_crates.Vcdiff.Error.{
  ok, err, DecodeContext, DecodeError, Result, arithmetic_overflow, target_size_mismatch,
}
use rust_crates.Vcdiff.Stream.{Stream, ReadsBytes, WritesBytes}
use rust_crates.Vcdiff.Cursor
use rust_crates.Vcdiff.Cursor.{SliceCursor}
use rust_crates.Vcdiff.Cursor.Reads.{
  IsInside, IsInside-advance, unread, length-unread, read_slice-err,
}
use rust_crates.Vcdiff.Cursor.Total.{List-cases, read_u8-empty}
use rust_crates.Vcdiff.Cache.History.{IsValid}
use rust_crates.Vcdiff.Adler.Sums.{IsByte-take, IsByte-drop}
use rust_crates.Vcdiff.Target.{io_buffer_size}
use rust_crates.Vcdiff.Target
use rust_crates.Vcdiff.Decoder.Instructions.{WindowContext, Machine, check_room, run_add, run_run}
use rust_crates.Vcdiff.Decoder.Semantics.{Progress}
use rust_crates.Vcdiff.Decoder.Performing.{IsPlaced, Ready, check_room_lem, adds_lem, runs_lem}

-- The cursors stand inside sections of bytes, the cache is one that decoding leaves, and the window
-- has not outgrown its size.
pub record IsSound (target_size : ℕ) (σ : Progress) : Type 0 where
  pub data_inside : IsInside σ.data_cursor
  pub data_bytes : All IsByte σ.data_cursor.bytes
  pub address_inside : IsInside σ.address_cursor
  pub address_bytes : All IsByte σ.address_cursor.bytes
  pub cache_valid : IsValid σ.cache
  pub within : length σ.produced ≤ target_size

module _ {S T : Stream} (source_law : ReadsBytes S) (law : WritesBytes T)
    (source before segment : List ℕ) (window : WindowContext)
    (placed : IsPlaced source before segment window) (fuel : ℕ)
    (attempts : io_buffer_size ≤ fuel) where
  -- What an instruction may come to.
  pub data Answers (σ : Progress) : Result (Machine S T) → Type 0 where
    produces :
        (added : List ℕ) (σ' : Progress) (m' : Machine S T)
        → Ready source_law law source before σ' m'
        → IsSound window.target_size σ'
        → σ'.produced ≡ σ.produced ++ added
        → Answers σ (ok m')
    refuses : (e : DecodeError) → Answers σ (err e)

  pub check_room-cases :
      (size : ℕ) (context : DecodeContext) (σ : Progress) (m : Machine S T)
      → Ready source_law law source before σ m
      → ((check_room window m.output size context ≡ ok tt)
          × (length σ.produced + size ≤ window.target_size))
        ⊎ ((e : DecodeError) × (check_room window m.output size context ≡ err e))
  unfolding check_room Target.len
  check_room-cases size context σ m r =
      let len : m.output.logical_len ≡ length before + length σ.produced =
        r.holds.writing.len_known ∙ length-append before σ.produced in
      let behind : leb window.window_start m.output.logical_len ≡ true =
        ground (arith, len, placed.starts) in
      elim (dec_lt window.target_size (length σ.produced + size)) [
        | no room ↦
            let fit : length σ.produced + size ≤ window.target_size = omega arith in
            inl (
              check_room_lem source_law law source before segment window placed fuel attempts size
                  context σ m r fit,
              fit,
            )
        | yes big ↦
            elim (Bool-cases
              (ltb (m.output.logical_len - window.window_start + size) 0x1_0000_0000_0000_0000)) [
                | inr wide ↦ inr (arithmetic_overflow context, rw (behind, wide))
                | inl small ↦
                    let over : ltb window.target_size
                          (m.output.logical_len - window.window_start + size)
                        ≡ true =
                      lt→ltb _ _ (omega (arith, len, placed.starts)) in
                    inr (
                      target_size_mismatch window.target_size
                          (m.output.logical_len - window.window_start + size) context,
                      rw (behind, small, over),
                    )
              ]
      ]

  pub add-Answers :
      (size : ℕ) (σ : Progress) (m : Machine S T)
      → Ready source_law law source before σ m
      → IsSound window.target_size σ
      → Answers σ (run_add fuel window size m)
  add-Answers size σ m r s = elim (check_room-cases size (Cursor.context m.data_cursor) σ m r) [
    | inr (e, refused) ↦ unfold run_add in rw refused (refuses e)
    | inl (passed, room) ↦ elim (dec_lt (length σ.data_cursor.bytes) (σ.data_cursor.pos + size)) [
      | yes short ↦
          let none_left =
            ap (Cursor.read_slice size) r.data_at
            ∙ read_slice-err size σ.data_cursor s.data_inside short in
          unfold run_add in rw (passed, none_left) (refuses _)
      | no enough ↦
          let bytes : List ℕ = take size (unread σ.data_cursor) in
          let count : length bytes ≡ size =
            omega (arith, length-take size (unread σ.data_cursor), length-unread σ.data_cursor) in
          let (m', e, r') =
            adds_lem source_law law source before segment window placed fuel attempts size bytes
              (drop size (unread σ.data_cursor)) σ m r s.data_inside
              (sym (take-append-drop size (unread σ.data_cursor))) count
              (unfold unread in IsByte-take size _ (IsByte-drop σ.data_cursor.pos _ s.data_bytes))
              room in
          rw e (
            produces bytes _ m' r'
              (record {
                data_inside =
                    IsInside-advance size σ.data_cursor s.data_inside
                      (omega (arith, length-unread σ.data_cursor));
                data_bytes = s.data_bytes;
                address_inside = s.address_inside;
                address_bytes = s.address_bytes;
                cache_valid = s.cache_valid;
                within = omega (arith, length-append σ.produced bytes, count);
              })
              refl)
    ]
  ]

  pub run-Answers :
      (size : ℕ) (σ : Progress) (m : Machine S T)
      → Ready source_law law source before σ m
      → IsSound window.target_size σ
      → Answers σ (run_run fuel window size m)
  run-Answers size σ m r s = elim (check_room-cases size (Cursor.context m.data_cursor) σ m r) [
    | inr (e, refused) ↦ unfold run_run in rw refused (refuses e)
    | inl (passed, room) ↦ elim (List-cases (unread σ.data_cursor)) [
      | inl nothing_left ↦
          let none_left =
            ap Cursor.read_u8 r.data_at ∙ read_u8-empty σ.data_cursor s.data_inside nothing_left in
          unfold run_run in rw (passed, none_left) (refuses _)
      | inr (b, rest, u) ↦
          let bytes : All IsByte (b ∷ rest) =
            subst (All IsByte) u (unfold unread in IsByte-drop σ.data_cursor.pos _ s.data_bytes) in
          let (m', e, r') =
            runs_lem source_law law source before segment window placed fuel attempts size b rest σ
              m r s.data_inside u bytes.0 room in
          rw e (
            produces (replicate size b) _ m' r'
              (record {
                data_inside =
                    IsInside-advance 1 σ.data_cursor s.data_inside
                      (omega (arith, ap (λ (l : List ℕ). length l) u));
                data_bytes = s.data_bytes;
                address_inside = s.address_inside;
                address_bytes = s.address_bytes;
                cache_valid = s.cache_valid;
                within =
                    omega
                      (arith, length-append σ.produced (replicate size b), length-replicate size b);
              })
              refl)
    ]
  ]
