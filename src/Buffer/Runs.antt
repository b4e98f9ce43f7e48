-- ===== src/Buffer/Runs.antt =====
-- A small record written and read, and the theorems applied to it.
use hdf5_rs.Prelude.{◌≡◌, refl, arith, List, [], ◌∷◌, ◌++◌, map, length, take, drop, ok}
use hdf5_rs.Buffer.{Buf, align8, patch, number, take_bytes}
use hdf5_rs.Buffer.Patch.{patch-read}
use hdf5_rs.Buffer.Fields.{
  Field, byte, half, word, quad, value, write_all, read_all, read_all-write_all,
}

abbrev front : Buf
front = record { bytes = 7 ∷ [] }

abbrev fields : List Field
fields = byte 1 ∷ half 515 ∷ word 66051 ∷ quad 4294967296 ∷ []

written :
    (write_all fields front).bytes
    ≡ 7 ∷ 1 ∷ 3 ∷ 2 ∷ 3 ∷ 2 ∷ 1 ∷ 0 ∷ 0 ∷ 0 ∷ 0 ∷ 0 ∷ 1 ∷ 0 ∷ 0 ∷ 0 ∷ []
written = refl

rounded : align8 13 ≡ 16
unfolding align8
rounded = refl

read_all-write_all_example :
    read_all fields (record { image = (write_all fields front).bytes ++ (9 ∷ []); pos = 1 })
    ≡ ok (map value fields, record { image = (write_all fields front).bytes ++ (9 ∷ []); pos = 16 })
read_all-write_all_example =
    read_all-write_all fields front (9 ∷ [])
      (omega arith, (omega arith, (omega arith, (omega arith, tt))))

abbrev reserved : Buf
reserved = record { bytes = 7 ∷ 0 ∷ 0 ∷ 9 ∷ [] }

patch-read_example :
    (c : Buf) × (patch 2 1 513 reserved ≡ ok c)
    × (length c.bytes ≡ 4)
    × (take 1 c.bytes ≡ 7 ∷ [])
    × (drop 3 c.bytes ≡ 9 ∷ [])
    × (number (take_bytes 2 (record { image = c.bytes; pos = 1 }))
        ≡ ok (513, record { image = c.bytes; pos = 3 }))
patch-read_example = patch-read 2 1 513 reserved (omega arith) refl
