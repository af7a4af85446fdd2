-- ===== src/Vcdiff/Error.antt =====
-- crates/vcdiff/src/error.rs: decoding errors and the context that they carry, and the outcome of
-- a decoding step.
use rust_crates.Prelude.{ℕ, Bool, true, false, Option, none, some, ◌≡◌, refl, ap}
use rust_crates.Prelude.{ltb, if◌then◌else◌}

-- `Data` is `data_section` here, since `data` is a keyword.
pub data SectionKind : Type 0 where
  data_section instructions addresses : SectionKind

unfoldable pub index : SectionKind → ℕ
index data_section = 0
index instructions = 1
index addresses = 2

pub data IoOperation : Type 0 where
  length read write seek flush : IoOperation

-- `std::io::ErrorKind`, as far as the crate tells kinds apart; the number stands for the rest of
-- an error that a stream reports.
pub data IoError : Type 0 where
  interrupted unexpected_eof write_zero invalid_data invalid_input : IoError
  other : ℕ → IoError

pub record ByteRange : Type 0 where
  pub start : ℕ
  pub len : ℕ

pub record DecodeContext : Type 0 where
  pub delta_offset : ℕ
  pub window : Option ℕ
  pub section : Option SectionKind

-- `DecodeContext::new(offset, None, None)`
abbrev pub bare_context : ℕ → DecodeContext
bare_context offset = record { delta_offset = offset; window = none; section = none }

-- crates/vcdiff/src/djw.rs: what is wrong with a DJW section.
pub data DjwFault : Type 0 where
  truncated invalid_field invalid_table empty_table invalid_code invalid_mtf run_overflow
        run_past_end invalid_selector :
      DjwFault

-- The fault of a secondary decoder; the number stands for an error of an XZ section.
pub data SecondaryError : Type 0 where
  djw_fault : DjwFault → SecondaryError
  lzma_fault : ℕ → SecondaryError

pub data DecodeError : Type 0 where
  source_io target_io : IoOperation → Option ByteRange → Option ℕ → IoError → DecodeError
  delta_io : IoOperation → DecodeContext → IoError → DecodeError
  target_not_empty : ℕ → DecodeError
  bad_magic : DecodeContext → DecodeError
  unsupported_version : ℕ → DecodeContext → DecodeError
  invalid_header_indicator : ℕ → DecodeContext → DecodeError
  invalid_window_indicator : ℕ → DecodeContext → DecodeError
  invalid_delta_indicator : ℕ → DecodeContext → DecodeError
  unsupported_code_table : DecodeContext → DecodeError
  unsupported_secondary_compressor : ℕ → DecodeContext → DecodeError
  compressed_section_without_compressor : SectionKind → DecodeContext → DecodeError
  secondary_decompression : ℕ → DecodeContext → SecondaryError → DecodeError
  invalid_secondary_size : ℕ → DecodeContext → DecodeError
  secondary_size_mismatch : ℕ → ℕ → DecodeContext → DecodeError
  secondary_input_mismatch : ℕ → ℕ → DecodeContext → DecodeError
  malformed_secondary_section : ℕ → DecodeContext → DecodeError
  secondary_dictionary_limit : ℕ → ℕ → DecodeContext → DecodeError
  truncated_delta : DecodeContext → DecodeError
  varint_overflow : DecodeContext → DecodeError
  arithmetic_overflow : DecodeContext → DecodeError
  platform_size_limit : ℕ → DecodeContext → DecodeError
  target_size_limit : ℕ → ℕ → DecodeContext → DecodeError
  window_memory_limit : ℕ → ℕ → DecodeContext → DecodeError
  allocation_failed : ℕ → DecodeContext → DecodeError
  segment_out_of_bounds : ByteRange → ℕ → DecodeContext → DecodeError
  invalid_address_mode : ℕ → DecodeContext → DecodeError
  address_out_of_bounds : ℕ → ℕ → DecodeContext → DecodeError
  copy_crosses_source_target : ℕ → ℕ → ℕ → DecodeContext → DecodeError
  section_out_of_bounds : SectionKind → ℕ → ℕ → DecodeContext → DecodeError
  target_size_mismatch : ℕ → ℕ → DecodeContext → DecodeError
  delta_length_mismatch : ℕ → ℕ → DecodeContext → DecodeError
  trailing_section_data : SectionKind → ℕ → DecodeContext → DecodeError
  checksum_mismatch : ℕ → ℕ → ℕ → ℕ → DecodeError

-- What a Rust call comes to: a value, an error, a panic (an index out of bounds), or `stuck`, which
-- is no Rust value: the fuel of a loop ran out.
pub data Result {ℓ} (A : Type ℓ) : Type ℓ where
  ok : A → Result A
  err : DecodeError → Result A
  panic : Result A
  stuck : Result A

-- `?`: whatever is not a value ends the function.
infixl 5 ◌>>=◌ ◌>>◌
abbrev pub ◌>>=◌ {ℓ κ} :
    {Out : Type ℓ} {Next : Type κ} → Result Out → (Out → Result Next) → Result Next
stuck >>= next = stuck
panic >>= next = panic
err fault >>= next = err fault
ok value >>= next = next value

abbrev pub ◌>>◌ {ℓ} : {Next : Type ℓ} → Result (Unit {0}) → Result Next → Result Next
first >> next = first >>= λ _. next

-- `if refused { return Err(e) }`
abbrev pub refuse : Bool → DecodeError → Result (Unit {0})
refuse true e = err e
refuse false e = ok tt

-- `.ok_or(e)?`
abbrev pub ok_or {ℓ} : {A : Type ℓ} → Option A → DecodeError → Result A
ok_or (some a) e = ok a
ok_or none e = err e

-- `v[i]`
abbrev pub or_panic {ℓ} : {A : Type ℓ} → Option A → Result A
or_panic (some a) = ok a
or_panic none = panic

-- `usize::try_from` where a `usize` has 64 bits
abbrev pub try_usize : ℕ → DecodeContext → Result ℕ
try_usize value context =
    if ltb value 0x1_0000_0000_0000_0000 then ok value else err (platform_size_limit value context)

ok_value {ℓ} : {A : Type ℓ} → A → Result A → A
ok_value d (ok a) = a
ok_value d (err e) = d
ok_value d panic = d
ok_value d stuck = d

pub ok-injective {ℓ} : {A : Type ℓ} (a b : A) → ok a ≡ ok b → a ≡ b
unfolding ok_value
ok-injective a b h = ap (ok_value a) h

-- A chain that succeeds succeeds in each step.
pub bind-ok {ℓ κ} :
    {Out : Type ℓ} {Next : Type κ} (first : Result Out) (next : Out → Result Next) {c : Next}
    → (first >>= next) ≡ ok c
    → (out : Out) × (first ≡ ok out) × (next out ≡ ok c)
bind-ok (ok out) next h = (out, refl, h)
bind-ok (err e) next h = cc
bind-ok panic next h = cc
bind-ok stuck next h = cc

pub refuse-ok :
    (wrong : Bool) (e : DecodeError) (u : Unit {0}) → refuse wrong e ≡ ok u → wrong ≡ false
refuse-ok false e u h = refl
refuse-ok true e u h = cc
