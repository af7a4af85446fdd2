-- ===== src/Vcdiff/CodeTable.antt =====
-- crates/vcdiff/src/code_table.rs: the default instruction table of RFC 3284, section 5.6, built by
-- the loops of `default_table`.
pub mod Rfc
use rust_crates.Prelude.{ℕ, zero, suc, ◌+◌, ◌-◌, ◌*◌, List, set, replicate}

pub data InstKind : Type 0 where
  no_op add run copy : InstKind

pub record Instruction : Type 0 where
  pub kind : InstKind
  pub size : ℕ
  pub mode : ℕ

abbrev pub noop : Instruction
noop = record { kind = no_op; size = 0; mode = 0 }

-- `Instruction::new`
abbrev pub instruction : InstKind → ℕ → ℕ → Instruction
instruction kind size mode = record { kind = kind; size = size; mode = mode }

pub record Entry : Type 0 where
  pub first : Instruction
  pub second : Instruction

abbrev pub entry : Instruction → Instruction → Entry
entry first second = record { first = first; second = second }

abbrev pub single : Instruction → Entry
single inst = entry inst noop

abbrev pub near_count : ℕ
near_count = 4

abbrev pub same_count : ℕ
same_count = 3

-- `for i in from .. from + rounds { body }` over the variable that the body changes
unfoldable pub for_range {ℓ} : {S : Type ℓ} → ℕ → ℕ → (ℕ → S → S) → S → S
for_range from zero body s = s
for_range from (suc rounds) body s = for_range (from + 1) rounds body (body from s)

abbrev Table : Type 0
Table = List Entry

add_entries : Table → Table
add_entries = for_range 1 17 (λ size t. set t (1 + size) (single (instruction add size 0)))

-- The sizes 4 to 18 of one copy mode, behind the entry whose size stands in the stream.
copy_entries : Table → Table
copy_entries = for_range 0 9 λ mode t.
    for_range 1 15 (λ k t. set t (19 + 16 * mode + k) (single (instruction copy (k + 3) mode)))
      (set t (19 + 16 * mode) (single (instruction copy 0 mode)))

-- The index runs along beside the table, as `idx` does.
add_copy_sizes : ℕ → ℕ → ℕ × Table → ℕ × Table
add_copy_sizes mode add_size = for_range 4 3 λ copy_size p.
    (p.0 + 1, set p.1 p.0 (entry (instruction add add_size 0) (instruction copy copy_size mode)))

add_copy_entries : Table → Table
unfolding add_copy_sizes
add_copy_entries =
    for_range 0 6 λ mode t. (for_range 1 4 (add_copy_sizes mode) (163 + 12 * mode, t)).1

add_copy4_entries : Table → Table
add_copy4_entries = for_range 6 3 λ mode t.
    for_range 1 4
      (λ add_size t.
        set t (235 + 4 * (mode - 6) + (add_size - 1))
          (entry (instruction add add_size 0) (instruction copy 4 mode)))
      t

copy_add_entries : Table → Table
copy_add_entries =
    for_range 0 9
      λ mode t. set t (247 + mode) (entry (instruction copy 4 mode) (instruction add 1 0))

unfoldable pub default_table : List Entry
unfolding for_range add_entries copy_entries add_copy_entries add_copy4_entries copy_add_entries
default_table = copy_add_entries (
    add_copy4_entries (
      add_copy_entries (
        copy_entries (
          add_entries (
            set (set (replicate 256 (single noop)) 0 (single (instruction run 0 0))) 1
              (single (instruction add 0 0)))))))
