-- ===== src/Vcdiff/CodeTable/Rfc.antt =====
-- The default table against the ranges that RFC 3284, section 5.6 lists.
use rust_crates.Prelude.{
  ℕ, zero, suc, ◌+◌, ◌-◌, ◌/◌, ◌%◌, ◌≤◌, ◌<◌, ◌≡◌, ◌≢◌, ◌⊎◌, inl, inr, refl, ap, subst, ◌∙◌, some,
  List, [], ◌∷◌, arith,
}
use rust_crates.Prelude.{
  ltb, if◌then◌else◌, get_elem?, Bool, Bool-cases, true, false, not, ◌&&◌, ◌||◌, leb,
}
use mathlib.Core.Option.{some-injective}
use rust_crates.Vcdiff.CodeTable.{
  InstKind, no_op, add, run, copy, Entry, instruction, entry, single, default_table,
}

-- The instruction pair of an opcode, by the table of the RFC.
unfoldable pub rfc_entry : ℕ → Entry
rfc_entry i =
    if ltb i 1
    then single (instruction run 0 0)
    else if ltb i 19
    then single (instruction add (i - 1) 0)
    else if ltb i 163
    then single (instruction copy (copy_size ((i - 19) % 16)) ((i - 19) / 16))
    else if ltb i 235
    then entry (instruction add ((i - 163) % 12 / 3 + 1) 0)
        (instruction copy ((i - 163) % 3 + 4) ((i - 163) / 12))
    else if ltb i 247
    then entry (instruction add ((i - 235) % 4 + 1) 0) (instruction copy 4 ((i - 235) / 4 + 6))
    else entry (instruction copy 4 (i - 247)) (instruction add 1 0)
  where
    -- The size 0 stands for a size in the stream.
    copy_size : ℕ → ℕ
    copy_size zero = 0
    copy_size (suc k) = k + 4

entries_from : ℕ → ℕ → List Entry
entries_from i zero = []
entries_from i (suc count) = rfc_entry i ∷ entries_from (i + 1) count

default_table-entries : default_table ≡ entries_from 0 256
unfolding default_table entries_from rfc_entry
default_table-entries = refl

get_elem?-entries_from :
    (from count i : ℕ)
    → i < count
    → get_elem? (entries_from from count) i ≡ some (rfc_entry (from + i))
unfolding entries_from
get_elem?-entries_from from zero i h = absurd (omega arith)
get_elem?-entries_from from (suc count) zero h =
    let e : from ≡ from + 0 = omega arith in ap (λ (k : ℕ). some (rfc_entry k)) e
get_elem?-entries_from from (suc count) (suc i) h =
    let e : from + 1 + i ≡ from + suc i = omega arith in
    get_elem?-entries_from (from + 1) count i (omega arith) ∙ ap (λ (k : ℕ). some (rfc_entry k)) e

-- The table that the loops build gives every opcode the instruction pair of RFC 3284, section 5.6.
pub default_table-rfc_entry :
    (opcode : ℕ) → opcode < 256 → get_elem? default_table opcode ≡ some (rfc_entry opcode)
default_table-rfc_entry opcode h =
    ap (λ t. get_elem? t opcode) default_table-entries
    ∙ get_elem?-entries_from 0 256 opcode h
    ∙ (let e : 0 + opcode ≡ opcode = omega arith in ap (λ (k : ℕ). some (rfc_entry k)) e)

-- What the decoder relies on in an entry: the first instruction does something, modes are those of
-- the cache, and the size of a second instruction stands in the table.
pub record IsWellFormed (e : Entry) : Type 0 where
  pub first_works : e.first.kind ≢ no_op
  pub first_mode : e.first.mode ≤ 8
  pub second_mode : e.second.mode ≤ 8
  pub second_sized : (e.second.kind ≡ no_op) ⊎ (0 < e.second.size)

works : InstKind → Bool
works no_op = false
works _ = true

-- The same as a test.
well_formed : Entry → Bool
unfolding works
well_formed e =
    works e.first.kind
    && (leb e.first.mode 8
        && (leb e.second.mode 8 && (not (works e.second.kind) || ltb 0 e.second.size)))

all_well_formed : List Entry → Bool
all_well_formed [] = true
all_well_formed (e ∷ es) = well_formed e && all_well_formed es

default_table-all_well_formed : all_well_formed default_table ≡ true
unfolding default_table all_well_formed well_formed
default_table-all_well_formed = refl

works-ne : (k : InstKind) → works k ≡ true → k ≢ no_op
unfolding works
works-ne k h = ground arith

works-eq : (k : InstKind) → works k ≡ false → k ≡ no_op
unfolding works
works-eq k h = ground arith

well_formed-IsWellFormed : (e : Entry) → well_formed e ≡ true → IsWellFormed e
unfolding well_formed
well_formed-IsWellFormed e h = record {
  first_works = works-ne e.first.kind (ground arith);
  first_mode = ground arith;
  second_mode = ground arith;
  second_sized = elim (Bool-cases (works e.second.kind)) [
    | inl w ↦ inr (ground arith)
    | inr w ↦ inl (works-eq e.second.kind w)
  ];
}

get_elem?-IsWellFormed :
    (es : List Entry) (i : ℕ) (e : Entry)
    → all_well_formed es ≡ true
    → get_elem? es i ≡ some e
    → IsWellFormed e
unfolding all_well_formed
get_elem?-IsWellFormed [] i e h g = cc
get_elem?-IsWellFormed (x ∷ xs) zero e h g =
    subst IsWellFormed (some-injective x e g) (well_formed-IsWellFormed x (ground arith))
get_elem?-IsWellFormed (x ∷ xs) (suc i) e h g = get_elem?-IsWellFormed xs i e (ground arith) g

-- Every entry of the table is well formed: its first instruction is not a no-operation, both modes
-- are at most 8, and its second instruction is a no-operation or has a size of its own.
pub default_table-IsWellFormed :
    (opcode : ℕ) (e : Entry) → get_elem? default_table opcode ≡ some e → IsWellFormed e
default_table-IsWellFormed opcode e g =
    get_elem?-IsWellFormed default_table opcode e default_table-all_well_formed g
