-- ===== src/Esl/Layout/Groups.antt =====
-- `write_group` writes a group's size after its records, into the place that it left for it.
use rust_crates.Prelude.{
  ℕ, ◌+◌, ◌-◌, ◌≡◌, ◌↔◌, sym, ap, ap₂, ◌∙◌, false, List, [], ◌∷◌, ◌++◌, append-nil, append_assoc,
  arith, not,
}
use rust_crates.Prelude.{
  All, leb, length, length-append, drop, take-append, drop-append, drop-drop, le_bytes,
  length-le_bytes,
}
use rust_crates.Esl.Error.{
  Signature, written, refuse, written-injective, bind-written, refuse-written,
}
use rust_crates.Esl.Game.{Game}
use rust_crates.Esl.Write.{sig_bytes, same_sig, grup}
use rust_crates.Esl.Content.{
  Record, Group, write_record, write_records, patch, group_header, write_group, is_nesting_required,
}
use rust_crates.Esl.Layout.{record_layout, records_layout, group_layout, IsMember, IsGroup}
use rust_crates.Esl.Layout.Written.{write_record_lem, write_record-IsRecord}

write_records_lem :
    (records : List Record) (out : List ℕ) (label : Signature) (game : Game)
    → All (IsMember label) records
    → write_records out label records game ≡ written (out ++ records_layout records game)
unfolding write_records records_layout
write_records_lem [] out label game h = ap (λ (l : List ℕ). written l) (sym (append-nil out))
write_records_lem (r ∷ records) out label game (m, ms) =
    let same = m.of_label in
    rw (same, write_record_lem out r game m.is_record)
      (write_records_lem records (out ++ record_layout r game) label game ms
        ∙ ap (λ (l : List ℕ). written l)
            (append_assoc out (record_layout r game) (records_layout records game)))

write_records-IsMember :
    (records : List Record) (out bytes : List ℕ) (label : Signature) (game : Game)
    → write_records out label records game ≡ written bytes
    → All (IsMember label) records
unfolding write_records
write_records-IsMember [] out bytes label game h = tt
write_records-IsMember (r ∷ records) out bytes label game h =
    let (u, e, h1) = bind-written (refuse (not (same_sig r.sig label)) _) _ h in
    let (next, e1, h2) = bind-written (write_record out r game) _ h1 in
    let same = refuse-written (not (same_sig r.sig label)) _ u e in
    (
      record {
        of_label = ground (arith, same);
        is_record = write_record-IsRecord out next r game e1;
      },
      write_records-IsMember records next bytes label game h2,
    )

-- Four bytes behind `front` are replaced.
patch_lem :
    (front old new back : List ℕ)
    → length old ≡ 4
    → patch (front ++ (old ++ back)) (length front) new ≡ front ++ (new ++ back)
patch_lem front old new back h =
    let behind : drop (length front + 4) (front ++ (old ++ back)) ≡ back =
      sym (drop-drop (length front) 4 (front ++ (old ++ back)))
      ∙ ap (drop 4) (drop-append front (old ++ back))
      ∙ ap (λ (n : ℕ). drop n (old ++ back)) (sym h)
      ∙ drop-append old back in
    ap₂ (λ (x y : List ℕ). x ++ (new ++ y)) (take-append front (old ++ back)) behind

module _ (label : Signature) (records : List ℕ) where
  -- What stands in a group behind its size.
  rest : List ℕ
  rest =
      sig_bytes label
      ++ (le_bytes 4 0 ++ (le_bytes 2 0 ++ (le_bytes 2 0 ++ (le_bytes 4 0 ++ records))))

  header_lem :
      (out : List ℕ)
      → group_header out label ++ records ≡ (out ++ sig_bytes grup) ++ (le_bytes 4 0 ++ rest)
  unfolding group_header rest
  header_lem out = simp append_assoc

  length-rest : length rest ≡ 16 + length records
  unfolding rest le_bytes
  length-rest = omega arith

write_group_lem :
    (out : List ℕ) (g : Group) (game : Game)
    → IsGroup game g
    → write_group out g game ≡ written (out ++ group_layout g game)
unfolding write_group group_layout rest
write_group_lem out g game h =
    let records : List ℕ = records_layout g.records game in
    let size : ℕ = 24 + length records in
    let flat = h.flat in
    let front : List ℕ = out ++ sig_bytes grup in
    let at : length front ≡ length out + 4 = length-append out (sig_bytes grup) in
    let done = header_lem g.label records out in
    let total : length (group_header out g.label ++ records) - length out ≡ size =
      ap (λ (l : List ℕ). length l - length out) done
      ∙ omega (
        arith,
        length-append front (le_bytes 4 0 ++ rest g.label records),
        length-append (le_bytes 4 0) (rest g.label records),
        length-le_bytes 4 0,
        length-rest g.label records,
        at,
      ) in
    let fits : leb 0x1_0000_0000 size ≡ false = ground (arith, h.sized) in
    rw
      (
        flat,
        write_records_lem g.records (group_header out g.label) g.label game h.members,
        total,
        fits,
      )
      (ap (λ (l : List ℕ). written l)
        (ap₂ (λ (l : List ℕ) (n : ℕ). patch l n (le_bytes 4 size)) done (sym at)
          ∙ patch_lem front (le_bytes 4 0) (le_bytes 4 size) (rest g.label records)
              (length-le_bytes 4 0)
          ∙ append_assoc out (sig_bytes grup) (le_bytes 4 size ++ rest g.label records)))

write_group-IsGroup :
    (out bytes : List ℕ) (g : Group) (game : Game)
    → write_group out g game ≡ written bytes
    → IsGroup game g
unfolding write_group
write_group-IsGroup out bytes g game h =
    let (u, e, h1) = bind-written (refuse (is_nesting_required g.label) _) _ h in
    let (out', e1, h2) =
      bind-written (write_records (group_header out g.label) g.label g.records game) _ h1 in
    let (u', e2, h3) =
      bind-written (refuse (leb 0x1_0000_0000 (length out' - length out)) _) _ h2 in
    let small = refuse-written (leb 0x1_0000_0000 (length out' - length out)) _ u' e2 in
    let members =
      write_records-IsMember g.records (group_header out g.label) out' g.label game e1 in
    let records : List ℕ = records_layout g.records game in
    let same : group_header out g.label ++ records ≡ out' =
      written-injective (group_header out g.label ++ records) out'
        (sym (write_records_lem g.records (group_header out g.label) g.label game members) ∙ e1) in
    let total : length out' ≡ length out + 24 + length records =
      ap (λ (l : List ℕ). length l) (sym same ∙ header_lem g.label records out)
      ∙ omega (
        arith,
        length-append (out ++ sig_bytes grup) (le_bytes 4 0 ++ rest g.label records),
        length-append out (sig_bytes grup),
        length-append (le_bytes 4 0) (rest g.label records),
        length-le_bytes 4 0,
        length-rest g.label records,
      ) in
    record {
      flat = refuse-written (is_nesting_required g.label) _ u e;
      members = members;
      sized = ground (arith, small, total);
    }

-- `write_group` succeeds exactly on a group that the format holds, and appends its layout, with the size
-- of the whole group in its header.
pub write_group-IsGroup_iff :
    (out bytes : List ℕ) (g : Group) (game : Game)
    → (write_group out g game ≡ written bytes)
      ↔ (IsGroup game g × (out ++ group_layout g game ≡ bytes))
write_group-IsGroup_iff out bytes g game = (
  λ h. (
    write_group-IsGroup out bytes g game h,
    written-injective (out ++ group_layout g game) bytes
        (sym (write_group_lem out g game (write_group-IsGroup out bytes g game h)) ∙ h),
  ),
  λ p. write_group_lem out g game (p.0) ∙ ap (λ (l : List ℕ). written l) (p.1),
)
