-- ===== src/Esl/Reader/RoundTrip.antt =====
-- Reading records, groups and whole plugins back.
use rust_crates.Prelude.{
  ℕ, ◌+◌, ◌-◌, ◌^◌, ◌<◌, ◌≡◌, refl, ap, ◌∙◌, some, List, [], ◌∷◌, ◌++◌, map, append_assoc, arith,
}
use rust_crates.Prelude.{All, length, le_bytes, read_le-le_bytes, read_bytes-append}
use rust_crates.Esl.Error.{Signature}
use rust_crates.Esl.Game.{Game}
use rust_crates.Esl.Write.{sig_bytes, grup}
use rust_crates.Esl.Content.{Record, Group, form_version_of}
use rust_crates.Esl.Layout.{
  fields_layout, header_layout, record_layout, records_layout, group_layout, IsRecord, IsMember,
  IsGroup,
}
use rust_crates.Esl.Reader.{read_sig, read_record, read_records, read_group}
use rust_crates.Esl.Reader.Fields.{read_fields_lem, read_many_lem, same_sig_refl}

-- The numbers of a record have the widths of their types.
pub record IsSized (r : Record) : Type 0 where
  pub flags_word : r.flags < 0x1_0000_0000
  pub id_word : r.form_id < 0x1_0000_0000
  pub version_word : (game : Game) → form_version_of r.form_version game < 0x1_0000

-- What is read back: the form version of the game stands where the record has none of its own.
unfoldable pub record_view : Game → Record → Record
record_view game r = record r { form_version = some (form_version_of r.form_version game) }

unfoldable pub group_view : Game → Group → Group
unfolding record_view
group_view game g = record g { records = map (record_view game) g.records }

pub read_record_lem :
    (game : Game) (r : Record) (rest : List ℕ)
    → IsRecord r × IsSized r
    → read_record (record_layout r game ++ rest) ≡ some (record_view game r, rest)
unfolding read_record read_sig record_layout header_layout record_view
read_record_lem game r rest (h, s) =
    let body : List ℕ = fields_layout r.fields in
    let version : ℕ = form_version_of r.form_version game in
    let w0 : List ℕ = le_bytes 2 0 in
    let tail : (header_layout r.sig (length body) r.flags r.form_id version ++ body) ++ rest
        ≡ sig_bytes r.sig
          ++ (le_bytes 4 (length body)
              ++ (le_bytes 4 r.flags
                  ++ (le_bytes 4 r.form_id
                      ++ (w0 ++ (w0 ++ (le_bytes 2 version ++ (w0 ++ (body ++ rest)))))))) =
      simp append_assoc in
    let zero_fits : 0 < 256 ^ 2 = omega arith in
    ap read_record tail
    ∙ rw (
      read_le-le_bytes 4 (length body) _ (omega (arith, h.sized)),
      read_le-le_bytes 4 r.flags _ (omega (arith, s.flags_word)),
      read_le-le_bytes 4 r.form_id _ (omega (arith, s.id_word)),
      read_le-le_bytes 2 0 (w0 ++ (le_bytes 2 version ++ (w0 ++ (body ++ rest)))) zero_fits,
      read_le-le_bytes 2 0 (le_bytes 2 version ++ (w0 ++ (body ++ rest))) zero_fits,
      read_le-le_bytes 2 version _ (omega (arith, s.version_word game)),
      read_le-le_bytes 2 0 (body ++ rest) zero_fits,
      read_bytes-append body rest,
      read_fields_lem r.fields h.all_fields,
    )

record_layout-size : (game : Game) (r : Record) → 0 < length (record_layout r game)
unfolding record_layout header_layout
record_layout-size game r = omega arith

read_records_lem :
    (game : Game) (records : List Record)
    → All (λ r. IsRecord r × IsSized r) records
    → read_records (records_layout records game) ≡ some (map (record_view game) records)
unfolding read_records records_layout
read_records_lem game records h =
    read_many_lem (λ r. IsRecord r × IsSized r) read_record (λ r. record_layout r game)
      (record_view game) (λ l. records_layout l game) refl (λ r l. refl) (read_record_lem game)
      (record_layout-size game) records (length (records_layout records game)) h (omega arith)

unfoldable pub IsSizedGroup : Group → Type 0
IsSizedGroup g = All IsSized g.records

member_records :
    (label : Signature) (records : List Record)
    → All (IsMember label) records
    → All IsSized records
    → All (λ r. IsRecord r × IsSized r) records
member_records label [] h s = tt
member_records label (r ∷ records) (m, ms) (s, ss) =
    ((m.is_record, s), member_records label records ms ss)

pub read_group_lem :
    (game : Game) (g : Group) (rest : List ℕ)
    → IsGroup game g × IsSizedGroup g
    → read_group (group_layout g game ++ rest) ≡ some (group_view game g, rest)
unfolding read_group read_sig group_layout group_view IsSizedGroup
read_group_lem game g rest (h, s) =
    let records : List ℕ = records_layout g.records game in
    let size : ℕ = 24 + length records in
    let w0 : List ℕ = le_bytes 2 0 in
    let l0 : List ℕ = le_bytes 4 0 in
    let tail : group_layout g game ++ rest
        ≡ sig_bytes grup
          ++ (le_bytes 4 size
              ++ (sig_bytes g.label ++ (l0 ++ (w0 ++ (w0 ++ (l0 ++ (records ++ rest))))))) =
      simp append_assoc in
    let zero_fits : 0 < 256 ^ 2 = omega arith in
    let zero_fits' : 0 < 256 ^ 4 = omega arith in
    let content : size - 24 ≡ length records = omega arith in
    let tagged = same_sig_refl grup in
    ap read_group tail
    ∙ rw (
      read_le-le_bytes 4 size _ (omega (arith, h.sized)),
      read_le-le_bytes 4 0 (w0 ++ (w0 ++ (l0 ++ (records ++ rest)))) zero_fits',
      read_le-le_bytes 2 0 (w0 ++ (l0 ++ (records ++ rest))) zero_fits,
      read_le-le_bytes 2 0 (l0 ++ (records ++ rest)) zero_fits,
      read_le-le_bytes 4 0 (records ++ rest) zero_fits',
      content,
      read_bytes-append records rest,
      read_records_lem game g.records (member_records g.label g.records h.members s),
      tagged,
    )
