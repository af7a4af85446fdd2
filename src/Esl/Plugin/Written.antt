-- ===== src/Esl/Plugin/Written.antt =====
-- `to_bytes` writes exactly the layout of a plugin, for exactly the plugins that the format holds.
use rust_crates.Prelude.{
  ℕ, ◌+◌, ◌≤◌, ◌≡◌, refl, sym, ap, ◌∙◌, false, Option, none, some, List, [], ◌∷◌, ◌++◌, append-nil,
  append_assoc, arith, Bool-cases, inl, inr,
}
use rust_crates.Prelude.{All, ltb, length, length-append, le_bytes, length-le_bytes, if◌then◌else◌}
use Prim.Native.String.{String}
use rust_crates.Esl.Error.{Signature, written, refuse, bind-written, refuse-written}
use rust_crates.Esl.Game.{Game}
use rust_crates.Esl.Game
use rust_crates.Esl.Win1252.{encode_win1252}
use rust_crates.Esl.Win1252.CodePage.{decode_win1252, encode_win1252-decode_win1252}
use rust_crates.Esl.Write.{mast, data_sig, contains_nul, write_field, write_string_field}
use rust_crates.Esl.Content.{Group, write_group}
use rust_crates.Esl.Layout.{
  short_field, field_layout, fields_layout, group_layout, groups_layout, IsGroup,
}
use rust_crates.Esl.Layout.Written.{write_field_lem}
use rust_crates.Esl.Layout.Groups.{write_group-IsGroup_iff}
use rust_crates.Esl.Plugin.{write_optional, write_masters, write_groups}
use rust_crates.Esl.Plugin.Layout.{
  encoded_text, bytes_of, IsText, IsOptionalText, text_field, optional_field, data_field,
  master_fields,
}

pub field_layout-short :
    (sig : Signature) (payload : List ℕ)
    → length payload ≤ 0xffff
    → field_layout sig payload ≡ short_field sig payload
unfolding field_layout
field_layout-short sig payload h = ground arith

pub fields_layout-append :
    (xs ys : List (Signature × List ℕ))
    → fields_layout (xs ++ ys) ≡ fields_layout xs ++ fields_layout ys
unfolding fields_layout
fields_layout-append [] ys = refl
fields_layout-append ((sig, payload) ∷ xs) ys =
    ap (λ (l : List ℕ). field_layout sig payload ++ l) (fields_layout-append xs ys)
    ∙ sym (append_assoc (field_layout sig payload) (fields_layout xs) (fields_layout ys))

-- A short field is written as the layout of a list of one field.
pub one_field :
    (out : List ℕ) (sig : Signature) (payload : List ℕ)
    → length payload ≤ 0xffff
    → write_field out sig payload ≡ out ++ fields_layout ((sig, payload) ∷ [])
unfolding fields_layout
one_field out sig payload h =
    write_field_lem out sig payload h
    ∙ ap (λ (l : List ℕ). out ++ l)
        (sym (append-nil (field_layout sig payload) ∙ field_layout-short sig payload h))

pub write_string_field_lem :
    (out : List ℕ) (sig : Signature) (field : String) (value : List ℕ)
    → IsText value
    → write_string_field out sig field value
      ≡ written (out ++ fields_layout (text_field sig value ∷ []))
unfolding write_string_field text_field
write_string_field_lem out sig field value h =
    let text : List ℕ = encoded_text value in
    let plain = h.no_nul in
    let encoded = (encode_win1252-decode_win1252 value text field).1 h.encodes in
    let size : length (text ++ (0 ∷ [])) ≡ length text + 1 = length-append text (0 ∷ []) in
    let fits : ltb 0xffff (length (text ++ (0 ∷ []))) ≡ false = ground (arith, size, h.sized) in
    rw (plain, encoded, fits)
      (ap (λ (l : List ℕ). written l)
        (one_field out sig (text ++ (0 ∷ [])) (omega (arith, size, h.sized))))

pub write_string_field-IsText :
    (out bytes : List ℕ) (sig : Signature) (field : String) (value : List ℕ)
    → write_string_field out sig field value ≡ written bytes
    → IsText value
unfolding write_string_field encoded_text bytes_of
write_string_field-IsText out bytes sig field value h =
    let (u, e, h1) = bind-written (refuse (contains_nul value) _) _ h in
    let (text, e1, h2) = bind-written (encode_win1252 value field) _ h1 in
    let (u', e2, h3) = bind-written (refuse (ltb 0xffff (length (text ++ (0 ∷ [])))) _) _ h2 in
    let small = refuse-written (ltb 0xffff (length (text ++ (0 ∷ [])))) _ u' e2 in
    let decoded = (encode_win1252-decode_win1252 value text field).0 e1 in
    let same : encoded_text value ≡ text =
      ap bytes_of ((encode_win1252-decode_win1252 value text "").1 decoded) in
    record {
      no_nul = refuse-written (contains_nul value) _ u e;
      encodes = ap decode_win1252 same ∙ decoded;
      sized =
          ground (arith, small, length-append text (0 ∷ []), ap (λ (l : List ℕ). length l) same);
    }

pub write_optional_lem :
    (out : List ℕ) (sig : Signature) (field : String) (value : Option (List ℕ))
    → IsOptionalText value
    → write_optional out sig field value ≡ written (out ++ fields_layout (optional_field sig value))
unfolding write_optional optional_field IsOptionalText fields_layout
write_optional_lem out sig field none h = ap (λ (l : List ℕ). written l) (sym (append-nil out))
write_optional_lem out sig field (some value) h = write_string_field_lem out sig field value h

pub write_optional-IsOptionalText :
    (out bytes : List ℕ) (sig : Signature) (field : String) (value : Option (List ℕ))
    → write_optional out sig field value ≡ written bytes
    → IsOptionalText value
unfolding write_optional IsOptionalText
write_optional-IsOptionalText out bytes sig field none h = tt
write_optional-IsOptionalText out bytes sig field (some value) h =
    write_string_field-IsText out bytes sig field value h

-- The `DATA` field behind a master.
pair_data : List ℕ → Game → List ℕ
pair_data out game =
    if Game.masters_have_data game then write_field out data_sig (le_bytes 8 0) else out

pair_data_lem :
    (out : List ℕ) (game : Game) → pair_data out game ≡ out ++ fields_layout (data_field game)
unfolding pair_data data_field fields_layout
pair_data_lem out game = elim (Bool-cases (Game.masters_have_data game)) [
  | inl paired ↦
      rw paired (one_field out data_sig (le_bytes 8 0) (omega (arith, length-le_bytes 8 0)))
  | inr alone ↦ rw alone (sym (append-nil out))
]

pub write_masters_lem :
    (masters : List (List ℕ)) (out : List ℕ) (game : Game)
    → All IsText masters
    → write_masters out masters game ≡ written (out ++ fields_layout (master_fields masters game))
unfolding write_masters master_fields fields_layout pair_data
write_masters_lem [] out game h = ap (λ (l : List ℕ). written l) (sym (append-nil out))
write_masters_lem (master ∷ masters) out game (t, ts) =
    let first : List (Signature × List ℕ) = text_field mast master ∷ [] in
    let second : List (Signature × List ℕ) = data_field game in
    let rest : List (Signature × List ℕ) = master_fields masters game in
    let next : List ℕ = (out ++ fields_layout first) ++ fields_layout second in
    let paired = pair_data_lem (out ++ fields_layout first) game in
    rw (write_string_field_lem out mast "master" master t) (
      ap (λ l. write_masters l masters game) paired
      ∙ write_masters_lem masters next game ts
      ∙ ap (λ (l : List ℕ). written l)
          (append_assoc (out ++ fields_layout first) (fields_layout second) (fields_layout rest)
            ∙ ap (λ (l : List ℕ). (out ++ fields_layout first) ++ l)
                (sym (fields_layout-append second rest))
            ∙ append_assoc out (fields_layout first) (fields_layout (second ++ rest))
            ∙ ap (λ (l : List ℕ). out ++ l) (sym (fields_layout-append first (second ++ rest)))))

pub write_masters-IsText :
    (masters : List (List ℕ)) (out bytes : List ℕ) (game : Game)
    → write_masters out masters game ≡ written bytes
    → All IsText masters
unfolding write_masters
write_masters-IsText [] out bytes game h = tt
write_masters-IsText (master ∷ masters) out bytes game h =
    let (next, e, h1) = bind-written (write_string_field out mast "master" master) _ h in
    (
      write_string_field-IsText out next mast "master" master e,
      write_masters-IsText masters _ bytes game h1,
    )

pub write_groups_lem :
    (groups : List Group) (out : List ℕ) (game : Game)
    → All (IsGroup game) groups
    → write_groups out groups game ≡ written (out ++ groups_layout groups game)
unfolding write_groups groups_layout
write_groups_lem [] out game h = ap (λ (l : List ℕ). written l) (sym (append-nil out))
write_groups_lem (g ∷ groups) out game (v, vs) =
    let next : List ℕ = out ++ group_layout g game in
    rw ((write_group-IsGroup_iff out next g game).1 (v, refl)) (
      write_groups_lem groups next game vs
      ∙ ap (λ (l : List ℕ). written l)
          (append_assoc out (group_layout g game) (groups_layout groups game)))

pub write_groups-IsGroup :
    (groups : List Group) (out bytes : List ℕ) (game : Game)
    → write_groups out groups game ≡ written bytes
    → All (IsGroup game) groups
unfolding write_groups
write_groups-IsGroup [] out bytes game h = tt
write_groups-IsGroup (g ∷ groups) out bytes game h =
    let (next, e, h1) = bind-written (write_group out g game) _ h in
    (
      ((write_group-IsGroup_iff out next g game).0 e).0,
      write_groups-IsGroup groups next bytes game h1,
    )
