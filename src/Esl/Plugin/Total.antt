-- ===== src/Esl/Plugin/Total.antt =====
-- `to_bytes` as a whole.
use rust_crates.Prelude.{
  ℕ, ◌+◌, ◌≤◌, ◌<◌, ◌≡◌, ◌↔◌, sym, ap, ◌∙◌, false, List, [], ◌∷◌, ◌++◌, append_assoc, arith, min,
}
use rust_crates.Prelude.{leb, length, le_bytes}
use rust_crates.Esl.Error.{
  Signature, written, refuse, written-injective, bind-written, refuse-written,
}
use rust_crates.Esl.Game.{Game}
use rust_crates.Esl.Game
use rust_crates.Esl.Write.{tes4, hedr, cnam, snam, write_hedr}
use rust_crates.Esl.Content.{Group, record_count, form_version_of}
use rust_crates.Esl.Layout.{fields_layout, record_layout}
use rust_crates.Esl.Layout.Written.{write_record_header_lem}
use rust_crates.Esl.Plugin.{
  Plugin, add_counts, num_records, write_optional, write_groups, header_fields, to_bytes, flags,
}
use rust_crates.Esl.Plugin.Layout.{
  optional_field, master_fields, total_records, hedr_payload, tes4_record, plugin_layout, IsHeader,
  IsPlugin,
}
use rust_crates.Esl.Plugin.Written.{
  fields_layout-append, one_field, write_optional_lem, write_optional-IsOptionalText,
  write_masters_lem, write_masters-IsText, write_groups_lem, write_groups-IsGroup,
}

add_counts_exact :
    (groups : List Group) (count : ℕ)
    → count + total_records groups < 0xffff_ffff_ffff_ffff
    → add_counts count groups ≡ count + total_records groups
unfolding add_counts total_records
add_counts_exact [] count h = omega arith
add_counts_exact (g ∷ groups) count h = omega (
  arith,
  add_counts_exact groups (min (count + record_count g) 0xffff_ffff_ffff_ffff) (omega arith),
)

-- A sum below the limit did not saturate.
add_counts_below :
    (groups : List Group) (count : ℕ)
    → add_counts count groups < 0xffff_ffff_ffff_ffff
    → count + total_records groups < 0xffff_ffff_ffff_ffff
unfolding add_counts total_records
add_counts_below [] count h = omega arith
add_counts_below (g ∷ groups) count h =
    omega (arith, add_counts_below groups (min (count + record_count g) 0xffff_ffff_ffff_ffff) h)

num_records_lem :
    (p : Plugin)
    → length p.groups + total_records p.groups < 0x1_0000_0000
    → num_records p ≡ written (length p.groups + total_records p.groups)
unfolding num_records
num_records_lem p h =
    let exact = add_counts_exact p.groups (length p.groups) (omega arith) in
    let fits : leb 0x1_0000_0000 (add_counts (length p.groups) p.groups) ≡ false =
      ground (arith, exact) in
    rw fits (ap (λ (n : ℕ). written n) exact)

num_records-counted :
    (p : Plugin) (count : ℕ)
    → num_records p ≡ written count
    → length p.groups + total_records p.groups < 0x1_0000_0000
unfolding num_records
num_records-counted p count h =
    let sum : ℕ = add_counts (length p.groups) p.groups in
    let (u, e, h1) = bind-written (refuse (leb 0x1_0000_0000 sum) _) _ h in
    let small = refuse-written (leb 0x1_0000_0000 sum) _ u e in
    let below : sum < 0x1_0000_0000 = ground (arith, small) in
    let room = add_counts_below p.groups (length p.groups) (omega arith) in
    omega (arith, add_counts_exact p.groups (length p.groups) room)

header_fields_lem :
    (p : Plugin) → IsHeader p → header_fields p ≡ written (fields_layout ((tes4_record p).fields))
unfolding header_fields tes4_record write_hedr hedr_payload
header_fields_lem p h =
    let heads : List (Signature × List ℕ) = (hedr, hedr_payload p) ∷ [] in
    let first : List (Signature × List ℕ) = optional_field cnam p.author in
    let second : List (Signature × List ℕ) = optional_field snam p.description in
    let rest : List (Signature × List ℕ) = master_fields p.masters p.game in
    let size : length (hedr_payload p) ≤ 0xffff = unfold le_bytes in omega arith in
    let start = one_field [] hedr (hedr_payload p) size in
    let joined : ((fields_layout heads ++ fields_layout first) ++ fields_layout second)
          ++ fields_layout rest
        ≡ fields_layout (heads ++ (first ++ (second ++ rest))) =
      append_assoc (fields_layout heads ++ fields_layout first) (fields_layout second)
        (fields_layout rest)
      ∙ append_assoc (fields_layout heads) (fields_layout first)
          (fields_layout second ++ fields_layout rest)
      ∙ ap (λ (l : List ℕ). fields_layout heads ++ (fields_layout first ++ l))
          (sym (fields_layout-append second rest))
      ∙ ap (λ (l : List ℕ). fields_layout heads ++ l)
          (sym (fields_layout-append first (second ++ rest)))
      ∙ sym (fields_layout-append heads (first ++ (second ++ rest))) in
    rw
      (
        num_records_lem p h.counted,
        start,
        write_optional_lem (fields_layout heads) cnam "author" p.author h.author_text,
        write_optional_lem (fields_layout heads ++ fields_layout first) snam "description"
            p.description h.description_text,
      )
      (write_masters_lem p.masters
          ((fields_layout heads ++ fields_layout first) ++ fields_layout second) p.game
          h.master_texts
        ∙ ap (λ (l : List ℕ). written l) joined)

header_fields-IsHeader :
    (p : Plugin) (fields : List ℕ) → header_fields p ≡ written fields → IsHeader p
unfolding header_fields
header_fields-IsHeader p fields h =
    let (count, e1, g1) = bind-written (num_records p) _ h in
    let (with_cnam, e2, g2) = bind-written (write_optional _ cnam "author" p.author) _ g1 in
    let (with_snam, e3, g3) =
      bind-written (write_optional with_cnam snam "description" p.description) _ g2 in
    record {
      counted = num_records-counted p count e1;
      author_text = write_optional-IsOptionalText _ with_cnam cnam "author" p.author e2;
      description_text =
          write_optional-IsOptionalText with_cnam with_snam snam "description" p.description e3;
      master_texts = write_masters-IsText p.masters with_snam fields p.game g3;
    }

to_bytes_lem : (p : Plugin) → IsPlugin p → to_bytes p ≡ written (plugin_layout p)
unfolding to_bytes plugin_layout record_layout tes4_record form_version_of
to_bytes_lem p h =
    let fields : List ℕ = fields_layout ((tes4_record p).fields) in
    let fits : leb 0x1_0000_0000 (length fields) ≡ false = ground (arith, h.sized) in
    let header =
      write_record_header_lem [] tes4 (length fields) (flags p) 0 (Game.form_version p.game) in
    rw (header_fields_lem p h.header, fits)
      (ap (λ (l : List ℕ). write_groups (l ++ fields) p.groups p.game) header
        ∙ write_groups_lem p.groups _ p.game h.all_groups)

to_bytes-IsPlugin : (p : Plugin) (bytes : List ℕ) → to_bytes p ≡ written bytes → IsPlugin p
unfolding to_bytes
to_bytes-IsPlugin p bytes h =
    let (fields, e, h1) = bind-written (header_fields p) _ h in
    let (u, e1, h2) = bind-written (refuse (leb 0x1_0000_0000 (length fields)) _) _ h1 in
    let small = refuse-written (leb 0x1_0000_0000 (length fields)) _ u e1 in
    let header = header_fields-IsHeader p fields e in
    let same : fields_layout ((tes4_record p).fields) ≡ fields =
      written-injective _ fields (sym (header_fields_lem p header) ∙ e) in
    record {
      header = header;
      sized = ground (arith, small, ap (λ (l : List ℕ). length l) same);
      all_groups = write_groups-IsGroup p.groups _ bytes p.game h2;
    }

-- `to_bytes` succeeds exactly on a plugin that the format holds, and writes its layout: the `TES4` record
-- with the counts and the texts, and then the groups.
pub to_bytes-IsPlugin_iff :
    (p : Plugin) (bytes : List ℕ)
    → (to_bytes p ≡ written bytes) ↔ (IsPlugin p × (plugin_layout p ≡ bytes))
to_bytes-IsPlugin_iff p bytes = (
  λ h. (
    to_bytes-IsPlugin p bytes h,
    written-injective (plugin_layout p) bytes
        (sym (to_bytes_lem p (to_bytes-IsPlugin p bytes h)) ∙ h),
  ),
  λ q. to_bytes_lem p (q.0) ∙ ap (λ (l : List ℕ). written l) (q.1),
)
