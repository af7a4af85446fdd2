-- ===== src/Tests/Sections.antt =====
-- The section cursor, the address cache, the code table and the checksum on small inputs.
use rust_crates.Prelude.{◌%◌, ◌-◌, ◌≡◌, refl, inl, some, [], ◌∷◌, ◌++◌, arith}
use rust_crates.Prelude.{get_elem?}
use rust_crates.Vcdiff.Error.{ok, err, data_section, addresses, varint_overflow}
use rust_crates.Vcdiff.Varint.Encoding.{encode, leading}
use rust_crates.Vcdiff.Cursor.{SliceCursor, context, read_slice, read_varint}
use rust_crates.Vcdiff.Cursor.Reads.{IsInside, advance, unread, read_slice-ok}
use rust_crates.Vcdiff.Cursor.Varints.{read_varint-encode, read_varint_overflow}
use rust_crates.Vcdiff.Cursor.Total.{Reads, read_varint-Reads}
use rust_crates.Vcdiff.CodeTable.{default_table}
use rust_crates.Vcdiff.CodeTable.Rfc.{
  rfc_entry, IsWellFormed, default_table-rfc_entry, default_table-IsWellFormed,
}
use rust_crates.Vcdiff.Cache
use rust_crates.Vcdiff.Cache.{AddressCache}
use rust_crates.Vcdiff.Cache.History.{
  IsValid-new, remembering, latest, remembering-near, remembering-same,
}
use rust_crates.Vcdiff.Cache.Modes.{spells, near_mode, Decodes, decode-Addresses}
use rust_crates.Vcdiff.Cache.Total.{decode-Decodes}
use rust_crates.Vcdiff.Adler
use rust_crates.Vcdiff.Adler.Sums.{
  adler_fold, IsReduced, IsReduced-new, update-adler_fold, update-append,
}

abbrev three_bytes : SliceCursor
three_bytes = record {
  bytes = 10 ∷ 20 ∷ 30 ∷ [];
  pos = 1;
  base_offset = 7;
  window = 0;
  section = data_section;
}

three_bytes-IsInside : IsInside three_bytes
three_bytes-IsInside = record { within = omega arith; sized = omega arith }

read_slice-ok_example : read_slice 2 three_bytes ≡ ok (20 ∷ 30 ∷ [], advance 2 three_bytes)
read_slice-ok_example = read_slice-ok 2 three_bytes three_bytes-IsInside (omega arith)

-- An address section with the number 300 and one more byte.
abbrev section_300 : SliceCursor
section_300 = record {
  bytes = 0x82 ∷ 0x2c ∷ 9 ∷ [];
  pos = 0;
  base_offset = 40;
  window = 1;
  section = addresses;
}

section_300-IsInside : IsInside section_300
section_300-IsInside = record { within = omega arith; sized = omega arith }

section_300-unread : unread section_300 ≡ encode 1 300 ++ (9 ∷ [])
unfolding unread encode leading
section_300-unread = refl

read_varint-encode_example : read_varint section_300 ≡ ok (300, advance 2 section_300)
read_varint-encode_example =
    read_varint-encode 1 300 section_300 (9 ∷ []) section_300-IsInside section_300-unread
      (omega arith) (omega arith) (omega arith)

read_varint-Reads_example : Reads section_300 (read_varint section_300)
read_varint-Reads_example = read_varint-Reads section_300 section_300-IsInside

-- Ten groups with the top bit set.
abbrev endless : SliceCursor
endless = record {
  bytes = 128 ∷ 128 ∷ 128 ∷ 128 ∷ 128 ∷ 128 ∷ 128 ∷ 128 ∷ 128 ∷ 128 ∷ 1 ∷ [];
  pos = 0;
  base_offset = 0;
  window = 0;
  section = addresses;
}

endless-IsInside : IsInside endless
endless-IsInside = record { within = omega arith; sized = omega arith }

endless-unread : unread endless ≡ leading 10 0 ++ (1 ∷ [])
unfolding unread leading
endless-unread = refl

read_varint_overflow_example : read_varint endless ≡ err (varint_overflow (context endless))
read_varint_overflow_example =
    read_varint_overflow 10 0 1 endless [] endless-IsInside endless-unread (omega arith)
      (omega arith) (omega arith) (omega arith) (inl refl)

default_table-rfc_entry_example : get_elem? default_table 200 ≡ some (rfc_entry 200)
default_table-rfc_entry_example = default_table-rfc_entry 200 (omega arith)

default_table-IsWellFormed_example : IsWellFormed (rfc_entry 200)
default_table-IsWellFormed_example =
    default_table-IsWellFormed 200 (rfc_entry 200) (default_table-rfc_entry 200 (omega arith))

remembering-near_example :
    get_elem? (remembering (300 ∷ 20 ∷ 10 ∷ [])).near ((3 - 1 - 1) % 4) ≡ some 20
remembering-near_example = remembering-near (300 ∷ 20 ∷ 10 ∷ []) 1 (omega arith) (omega arith)

remembering-same_example :
    get_elem? (remembering (300 ∷ 1068 ∷ 10 ∷ [])).same 10 ≡ some (latest 10 (300 ∷ 1068 ∷ 10 ∷ []))
remembering-same_example = remembering-same (300 ∷ 1068 ∷ 10 ∷ []) 10 (omega arith)

abbrev one_address : AddressCache
one_address = Cache.update 300 Cache.new

one_address-near : get_elem? one_address.near 0 ≡ some 300
unfolding Cache.update Cache.new
one_address-near = refl

-- In the mode of the first NEAR slot, 300 stands for 600.
decode-Addresses_example :
    Cache.decode 2 1000 one_address section_300
    ≡ ok (600, Cache.update 600 one_address, advance 2 section_300)
unfolding Cache.update encode
decode-Addresses_example =
    decode-Addresses {here = 1000} section_300 (9 ∷ [])
      (near_mode 0 300 300 (omega arith) one_address-near (omega arith)
        (spells 1 (omega arith) (omega arith) (omega arith)))
      section_300-IsInside section_300-unread

decode-Decodes_example : Decodes section_300 (Cache.decode 7 1000 Cache.new section_300)
unfolding unread
decode-Decodes_example =
    decode-Decodes 1000 Cache.new section_300 (omega arith) IsValid-new section_300-IsInside
      (omega arith, (omega arith, (omega arith, tt))) 7

update-adler_fold_example :
    Adler.update (97 ∷ 98 ∷ []) Adler.new ≡ adler_fold (97 ∷ 98 ∷ []) Adler.new
update-adler_fold_example =
    update-adler_fold (97 ∷ 98 ∷ []) Adler.new IsReduced-new (omega arith, (omega arith, tt))

update-append_example :
    (Adler.update (98 ∷ []) (Adler.update (97 ∷ []) Adler.new)
      ≡ Adler.update (97 ∷ 98 ∷ []) Adler.new)
    × IsReduced (Adler.update (97 ∷ []) Adler.new)
update-append_example =
    update-append (97 ∷ []) (98 ∷ []) Adler.new IsReduced-new (omega arith, tt) (omega arith, tt)
