-- ===== src/Esl/Write.antt =====
-- crates/esl-writer/src/write.rs: the layout of fields and headers. A function that appends to `out`
-- returns the new `out`.
use Prim.Native.String.{String}
use rust_crates.Prelude.{ℕ, ◌%◌, Bool, false, List, [], ◌∷◌, ◌++◌}
use rust_crates.Prelude.{ltb, ◌==◌, ◌&&◌, ◌||◌, length, le_bytes}
use rust_crates.Esl.Error.{
  Signature, Outcome, written, ◌>>=◌, ◌>>◌, refuse, interior_nul, string_too_long,
}
use rust_crates.Esl.Win1252.{encode_win1252}

abbrev pub signature : ℕ → ℕ → ℕ → ℕ → Signature
signature a b c d = record { b0 = a; b1 = b; b2 = c; b3 = d }

abbrev pub tes4 : Signature
tes4 = signature b'T' b'E' b'S' b'4'

abbrev pub hedr : Signature
hedr = signature b'H' b'E' b'D' b'R'

abbrev pub cnam : Signature
cnam = signature b'C' b'N' b'A' b'M'

abbrev pub snam : Signature
snam = signature b'S' b'N' b'A' b'M'

abbrev pub mast : Signature
mast = signature b'M' b'A' b'S' b'T'

-- `DATA`
abbrev pub data_sig : Signature
data_sig = signature b'D' b'A' b'T' b'A'

abbrev pub grup : Signature
grup = signature b'G' b'R' b'U' b'P'

abbrev pub xxxx : Signature
xxxx = signature b'X' b'X' b'X' b'X'

abbrev pub flag_master : ℕ
flag_master = 1

abbrev pub flag_compressed : ℕ
flag_compressed = 0x4_0000

abbrev pub sig_bytes : Signature → List ℕ
sig_bytes s = s.b0 ∷ s.b1 ∷ s.b2 ∷ s.b3 ∷ []

-- `==` on `[u8; 4]`
unfoldable pub same_sig : Signature → Signature → Bool
same_sig s t = s.b0 == t.b0 && (s.b1 == t.b1 && (s.b2 == t.b2 && s.b3 == t.b3))

unfoldable pub write_field : List ℕ → Signature → List ℕ → List ℕ
write_field out sig payload =
    ((out ++ sig_bytes sig) ++ le_bytes 2 (length payload % 0x1_0000)) ++ payload

unfoldable pub write_hedr : List ℕ → ℕ → ℕ → ℕ → List ℕ
write_hedr out version num_records next_object_id =
    write_field out hedr
      (le_bytes 4 version ++ (le_bytes 4 num_records ++ le_bytes 4 next_object_id))

-- `value.contains('\0')`
unfoldable pub contains_nul : List ℕ → Bool
contains_nul [] = false
contains_nul (ch ∷ value) = ch == 0 || contains_nul value

unfoldable pub write_string_field : List ℕ → Signature → String → List ℕ → Outcome (List ℕ)
write_string_field out sig field value = do
  refuse (contains_nul value) (interior_nul field)
  encoded ← encode_win1252 value field
  let payload = encoded ++ (0 ∷ [])
  refuse (ltb 0xffff (length payload)) (string_too_long field (length payload))
  written (write_field out sig payload)

unfoldable pub write_record_header : List ℕ → Signature → ℕ → ℕ → ℕ → ℕ → List ℕ
write_record_header out sig data_size flags form_id form_version =
    (((((((out ++ sig_bytes sig) ++ le_bytes 4 data_size) ++ le_bytes 4 flags)
            ++ le_bytes 4 form_id)
          ++ le_bytes 2 0)
        ++ le_bytes 2 0)
      ++ le_bytes 2 form_version)
    ++ le_bytes 2 0
