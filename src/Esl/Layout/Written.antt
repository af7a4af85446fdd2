-- ===== src/Esl/Layout/Written.antt =====
-- The writers of record.rs append exactly the layout, for exactly the content that the format holds.
use rust_crates.Prelude.{
  ℕ, ◌%◌, ◌≤◌, ◌<◌, ◌≡◌, sym, ap, ◌∙◌, true, false, List, [], ◌∷◌, ◌++◌, append-nil, append_assoc,
  arith, bit_and, not, Bool-cases, inl, inr,
}
use rust_crates.Prelude.{All, ltb, leb, ◌==◌, length, le_bytes, length-le_bytes}
use rust_crates.Esl.Error.{
  Signature, written, refuse, written-injective, bind-written, refuse-written,
}
use rust_crates.Esl.Game.{Game}
use rust_crates.Esl.Write.{sig_bytes, same_sig, xxxx, write_field, write_record_header}
use rust_crates.Esl.Content.{
  Record, write_record_field, write_fields, write_record, form_version_of,
}
use rust_crates.Esl.Layout.{
  short_field, field_layout, fields_layout, header_layout, record_layout, IsField, IsRecord,
}

pub write_field_lem :
    (out : List ℕ) (sig : Signature) (payload : List ℕ)
    → length payload ≤ 0xffff
    → write_field out sig payload ≡ out ++ short_field sig payload
unfolding write_field short_field
write_field_lem out sig payload h =
    let e : length payload % 0x1_0000 ≡ length payload = omega arith in
    ap (λ (n : ℕ). ((out ++ sig_bytes sig) ++ le_bytes 2 n) ++ payload) e
    ∙ append_assoc (out ++ sig_bytes sig) (le_bytes 2 (length payload)) payload
    ∙ append_assoc out (sig_bytes sig) (le_bytes 2 (length payload) ++ payload)

write_record_field_lem :
    (out : List ℕ) (sig : Signature) (payload : List ℕ)
    → length payload < 0x1_0000_0000
    → write_record_field out sig payload ≡ written (out ++ field_layout sig payload)
unfolding write_record_field field_layout
write_record_field_lem out sig payload h = elim (Bool-cases (ltb 0xffff (length payload))) [
  | inl long ↦
      let fits : leb 0x1_0000_0000 (length payload) ≡ false = ground arith in
      let prefix : List ℕ = short_field xxxx (le_bytes 4 (length payload)) in
      let front : write_field out xxxx (le_bytes 4 (length payload)) ≡ out ++ prefix =
        write_field_lem out xxxx (le_bytes 4 (length payload))
          (omega (arith, length-le_bytes 4 (length payload))) in
      rw (long, fits)
        (ap (λ (l : List ℕ). written (((l ++ sig_bytes sig) ++ le_bytes 2 0) ++ payload)) front
          ∙ ap (λ (l : List ℕ). written l)
              (append_assoc ((out ++ prefix) ++ sig_bytes sig) (le_bytes 2 0) payload
                ∙ append_assoc (out ++ prefix) (sig_bytes sig) (le_bytes 2 0 ++ payload)
                ∙ append_assoc out prefix (sig_bytes sig ++ (le_bytes 2 0 ++ payload))))
  | inr short ↦
      rw short (ap (λ (l : List ℕ). written l) (write_field_lem out sig payload (ground arith)))
]

write_record_field-sized :
    (out bytes : List ℕ) (sig : Signature) (payload : List ℕ)
    → write_record_field out sig payload ≡ written bytes
    → length payload < 0x1_0000_0000
unfolding write_record_field
write_record_field-sized out bytes sig payload h = elim (Bool-cases (ltb 0xffff (length payload))) [
  | inl long ↦
      let (u, e, rest) =
        bind-written (refuse (leb 0x1_0000_0000 (length payload)) _) _ (rw long at h) in
      let fits = refuse-written (leb 0x1_0000_0000 (length payload)) _ u e in ground (arith, fits)
  | inr short ↦ ground (arith, short)
]

write_fields_lem :
    (fields : List (Signature × List ℕ)) (body : List ℕ)
    → All IsField fields
    → write_fields body fields ≡ written (body ++ fields_layout fields)
unfolding write_fields fields_layout
write_fields_lem [] body h = ap (λ (l : List ℕ). written l) (sym (append-nil body))
write_fields_lem ((sig, payload) ∷ fields) body (f, fs) =
    let plain = f.unreserved in
    rw (plain, write_record_field_lem body sig payload f.sized)
      (write_fields_lem fields (body ++ field_layout sig payload) fs
        ∙ ap (λ (l : List ℕ). written l)
            (append_assoc body (field_layout sig payload) (fields_layout fields)))

write_fields-IsField :
    (fields : List (Signature × List ℕ)) (body bytes : List ℕ)
    → write_fields body fields ≡ written bytes
    → All IsField fields
unfolding write_fields
write_fields-IsField [] body bytes h = tt
write_fields-IsField ((sig, payload) ∷ fields) body bytes h =
    let (u, e, h1) = bind-written (refuse (same_sig sig xxxx) _) _ h in
    let (next, e1, h2) = bind-written (write_record_field body sig payload) _ h1 in
    (
      record {
        unreserved = refuse-written (same_sig sig xxxx) _ u e;
        sized = write_record_field-sized body next sig payload e1;
      },
      write_fields-IsField fields next bytes h2,
    )

pub write_record_header_lem :
    (out : List ℕ) (sig : Signature) (size flags form_id form_version : ℕ)
    → write_record_header out sig size flags form_id form_version
      ≡ out ++ header_layout sig size flags form_id form_version
unfolding write_record_header header_layout
write_record_header_lem out sig size flags form_id form_version = simp append_assoc

pub write_record_lem :
    (out : List ℕ) (r : Record) (game : Game)
    → IsRecord r
    → write_record out r game ≡ written (out ++ record_layout r game)
unfolding write_record record_layout
write_record_lem out r game h =
    let body : List ℕ = fields_layout r.fields in
    let plain : (bit_and r.flags 0x4_0000 == 0) ≡ true = h.uncompressed in
    let fits : leb 0x1_0000_0000 (length body) ≡ false = ground (arith, h.sized) in
    rw (plain, write_fields_lem r.fields [] h.all_fields, fits)
      (ap (λ (l : List ℕ). written (l ++ body))
          (write_record_header_lem out r.sig (length body) r.flags r.form_id
            (form_version_of r.form_version game))
        ∙ ap (λ (l : List ℕ). written l) (append_assoc out _ body))

pub write_record-IsRecord :
    (out bytes : List ℕ) (r : Record) (game : Game)
    → write_record out r game ≡ written bytes
    → IsRecord r
unfolding write_record
write_record-IsRecord out bytes r game h =
    let (u, e, h1) = bind-written (refuse (not (bit_and r.flags 0x4_0000 == 0)) _) _ h in
    let (body, e1, h2) = bind-written (write_fields [] r.fields) _ h1 in
    let (u', e2, h3) = bind-written (refuse (leb 0x1_0000_0000 (length body)) _) _ h2 in
    let plain = refuse-written (not (bit_and r.flags 0x4_0000 == 0)) _ u e in
    let small = refuse-written (leb 0x1_0000_0000 (length body)) _ u' e2 in
    let fields = write_fields-IsField r.fields [] body e1 in
    let same : fields_layout r.fields ≡ body =
      written-injective (fields_layout r.fields) body
        (sym (write_fields_lem r.fields [] fields) ∙ e1) in
    record {
      uncompressed = ground (arith, plain);
      all_fields = fields;
      sized = rw same (ground (arith, small));
    }
