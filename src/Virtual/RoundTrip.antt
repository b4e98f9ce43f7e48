-- ===== src/Virtual/RoundTrip.antt =====
-- `parse_vds_blob` reads back what `encode_vds_blob` writes.
use hdf5_rs.Prelude.{
  ℕ, ◌+◌, ◌-◌, ◌^◌, ◌<◌, ◌≡◌, refl, ap, subst, ◌∙◌, arith, List, [], ◌∷◌, ◌++◌, length,
  length-append, append_assoc, append-nil, All, true, if◌then◌else◌, ok,
}
use hdf5_rs.Prelude.Bytes.{to_le}
use hdf5_rs.Arena.{Text}
use hdf5_rs.Buffer.{Buf, raw, u8, u64, read_u8, read_u32}
use hdf5_rs.Buffer.Parser.{
  Parser, ◌>>=◌, ◌>>◌, pure, pass, Reads, >>=-Reads, pure-Reads, Reads-from, u8-Reads, u32-Reads,
  u64-Reads, pass-Reads,
}
use hdf5_rs.Buffer.Writing.{◌then◌, Writes, raw-Writes, then-Writes, skip-Writes, Writes-from}
use hdf5_rs.Datatype.Names.{IsText}
use hdf5_rs.Datatype.RoundTrip.Names.{ended, read_chars-ended}
use hdf5_rs.Virtual.{
  Regular, SerSelection, all_selected, none_selected, regular, blocks, points, VdsMapping,
}
use hdf5_rs.Virtual.Parse.{
  is_regular, parse_whole, slab_header, parse_slab, parse_slabs, parse_by_type, parse_selection,
  read_cstr, parse_flags, parse_file, parse_dset, parse_entry, parse_entries, parse_all,
  parse_vds_blob, value_of,
}
use hdf5_rs.Virtual.Encode.{
  encode_whole, encode_slab, empty, encode_selection, encode_mapping, encode_mappings,
  encode_vds_blob,
}
use hdf5_rs.Checksum.{checksum}
use hdf5_rs.Virtual.Axes.{IsAxis, axes_code, encode_axes-Writes, read_axes-Reads}

-- The selections that are written.
abbrev pub IsWritable : SerSelection → Type 0
IsWritable all_selected = Unit {0}
IsWritable none_selected = Unit {0}
IsWritable (regular axes) = (length axes < 2 ^ 32) × All IsAxis axes
IsWritable (blocks bs) = ⊥
IsWritable (points ps) = ⊥

-- The bytes of a selection, which are read back.
record WrittenSelection (sel : SerSelection) : Type 0 where
  bytes : List ℕ
  written : encode_selection sel ≡ ok bytes
  read : Reads parse_selection bytes sel

whole-Reads :
    (sel : SerSelection) → Reads (parse_whole sel) (to_le 4 1 ++ (to_le 4 0 ++ to_le 4 0)) sel
unfolding parse_whole
whole-Reads sel =
    >>=-Reads _ (u32-Reads 1 (omega arith))
      (>>=-Reads (λ u. pure sel) (pass-Reads (to_le 4 0 ++ to_le 4 0)) (pure-Reads sel))

header-Reads : Reads (slab_header 2) (1 ∷ to_le 4 0) (1, 8)
unfolding slab_header
header-Reads =
    >>=-Reads (λ f. pass 4 >> pure (f, 8)) (u8-Reads 1)
      (>>=-Reads (λ u. pure (1, 8)) (pass-Reads (to_le 4 0)) (pure-Reads (1, 8)))

abbrev slab_code : List Regular → List ℕ
slab_code axes =
    to_le 4 2 ++ (to_le 4 2 ++ ((1 ∷ to_le 4 0) ++ (to_le 4 (length axes) ++ axes_code axes)))

slab-Writes : (axes : List Regular) → Writes (encode_slab axes) (slab_code axes)
unfolding encode_slab
slab-Writes axes =
    then-Writes
      (then-Writes
        (then-Writes (then-Writes (then-Writes (raw-Writes _) (raw-Writes _)) (raw-Writes _))
          (raw-Writes _))
        (raw-Writes _))
      (encode_axes-Writes axes)

slabs-Reads :
    (axes : List Regular)
    → length axes < 2 ^ 32
    → All IsAxis axes
    → Reads parse_slabs
        (to_le 4 2 ++ ((1 ∷ to_le 4 0) ++ (to_le 4 (length axes) ++ axes_code axes)))
        (regular axes)
unfolding parse_slabs parse_slab
slabs-Reads axes h hs =
    >>=-Reads
      (λ v. slab_header v >>= λ header.
        read_u32 >>= λ rank. parse_slab (is_regular v header.0) header.1 rank)
      (u32-Reads 2 (omega arith))
      (>>=-Reads (λ header. read_u32 >>= λ rank. parse_slab (is_regular 2 header.0) header.1 rank)
        header-Reads
        (>>=-Reads (λ rank. parse_slab true 8 rank) (u32-Reads (length axes) h)
          (Reads-from (append-nil (axes_code axes)) (
            >>=-Reads (λ sel. pure (regular sel)) (read_axes-Reads axes hs)
              (pure-Reads (regular axes))))))

selection-WrittenSelection : (sel : SerSelection) → IsWritable sel → WrittenSelection sel
unfolding encode_selection parse_selection parse_by_type encode_whole
selection-WrittenSelection all_selected h = record {
  bytes = to_le 4 3 ++ (to_le 4 1 ++ (to_le 4 0 ++ to_le 4 0));
  written = refl;
  read = record { run = (>>=-Reads _ (u32-Reads 3 (omega arith)) (whole-Reads all_selected)).run };
}
selection-WrittenSelection none_selected h = record {
  bytes = to_le 4 0 ++ (to_le 4 1 ++ (to_le 4 0 ++ to_le 4 0));
  written = refl;
  read = record { run = (>>=-Reads _ (u32-Reads 0 (omega arith)) (whole-Reads none_selected)).run };
}
selection-WrittenSelection (regular axes) (h, hs) = record {
  bytes = slab_code axes;
  written = ap (λ (b : Buf). ok b.bytes) ((slab-Writes axes).run empty);
  read = record { run = (>>=-Reads _ (u32-Reads 2 (omega arith)) (slabs-Reads axes h hs)).run };
}
selection-WrittenSelection (blocks bs) h = absurd h
selection-WrittenSelection (points ps) h = absurd h

cstr-Reads : (name : Text) → IsText name → Reads read_cstr (ended name) name
unfolding read_cstr
cstr-Reads name h = record {
  run = λ pre post.
      let whole = length-append pre (ended name ++ post) in
      let inner = length-append (ended name) post in
      let own = length-append name (0 ∷ []) in
      rw
        (
          ◌>>=◌,
          (read_chars-ended (length (pre ++ (ended name ++ post)) - length pre + 1) name
                (omega arith) h.no_end).run
              pre post,
          h.utf8,
        )
        refl;
}

-- A mapping that can be written.
pub record IsMapping (m : VdsMapping) : Type 0 where
  pub file : IsText m.source_file
  pub dset : IsText m.source_dset
  pub src : IsWritable m.src_sel
  pub virt : IsWritable m.virt_sel

record WrittenMapping (m : VdsMapping) : Type 0 where
  bytes : List ℕ
  written : (b : Buf) → encode_mapping m b ≡ ok (raw bytes b)
  read : (out : List VdsMapping) → Reads (parse_entry 0 out) bytes m

mapping-Writes :
    (file dset src virt : List ℕ)
    → Writes
        (raw file then u8 0 then raw dset then u8 0 then raw src then raw virt)
        (ended file ++ (ended dset ++ (src ++ virt)))
mapping-Writes file dset src virt =
    Writes-from
      (append_assoc (ended file ++ dset ++ (0 ∷ [])) src virt
        ∙ ap (λ t. t ++ (src ++ virt)) (append_assoc (ended file) dset (0 ∷ []))
        ∙ append_assoc (ended file) (ended dset) (src ++ virt))
      (then-Writes
        (then-Writes
          (then-Writes
            (then-Writes (then-Writes (raw-Writes file) (raw-Writes _)) (raw-Writes dset))
            (raw-Writes _))
          (raw-Writes src))
        (raw-Writes virt))

mapping-WrittenMapping : (m : VdsMapping) → IsMapping m → WrittenMapping m
unfolding encode_mapping parse_entry parse_flags parse_file parse_dset
mapping-WrittenMapping m h =
    let src = selection-WrittenSelection m.src_sel h.src in
    let virt = selection-WrittenSelection m.virt_sel h.virt in
    record {
      bytes = ended m.source_file ++ (ended m.source_dset ++ (src.bytes ++ virt.bytes));
      written = λ b.
          rw (src.written, virt.written)
            (ap ok ((mapping-Writes m.source_file m.source_dset src.bytes virt.bytes).run b));
      read = λ out.
          let last : Text → Text → SerSelection → SerSelection → Parser VdsMapping = λ f d u v.
            pure (record { source_file = f; source_dset = d; src_sel = u; virt_sel = v }) in
          let fourth : Text → Text → SerSelection → Parser VdsMapping =
            λ f d u. parse_selection >>= last f d u in
          let third : Text → Text → Parser VdsMapping = λ f d. parse_selection >>= fourth f d in
          let second : ℕ → Text → Parser VdsMapping = λ k f. parse_dset k out >>= third f in
          >>=-Reads (λ k. parse_file k out >>= second k) (pure-Reads 0)
            (>>=-Reads (second 0) (cstr-Reads m.source_file h.file) (
              >>=-Reads (third m.source_file) (cstr-Reads m.source_dset h.dset) (
                >>=-Reads (fourth m.source_file m.source_dset) src.read (
                  Reads-from (append-nil virt.bytes) (
                    >>=-Reads (last m.source_file m.source_dset m.src_sel) virt.read
                      (pure-Reads m))))));
    }

record WrittenMappings (ms : List VdsMapping) : Type 0 where
  bytes : List ℕ
  written : (b : Buf) → encode_mappings ms b ≡ ok (raw bytes b)
  read : (out : List VdsMapping) → Reads (parse_entries 0 (length ms) out) bytes (out ++ ms)

mappings-WrittenMappings : (ms : List VdsMapping) → All IsMapping ms → WrittenMappings ms
unfolding encode_mappings parse_entries
mappings-WrittenMappings [] h = record {
  bytes = [];
  written = λ b. ap ok (skip-Writes.run b);
  read = λ out. rw (append-nil out) (pure-Reads out);
}
mappings-WrittenMappings (m ∷ ms) (h, hs) =
    let first = mapping-WrittenMapping m h in
    let rest = mappings-WrittenMappings ms hs in
    record {
      bytes = first.bytes ++ rest.bytes;
      written = λ b.
          rw
            (
              first.written b,
              rest.written (raw first.bytes b),
              append_assoc b.bytes first.bytes rest.bytes,
            )
            refl;
      read = λ out.
          >>=-Reads (λ x. parse_entries 0 (length ms) (out ++ (x ∷ []))) (first.read out)
            (subst (λ r. Reads (parse_entries 0 (length ms) (out ++ (m ∷ []))) rest.bytes r)
              (append_assoc out (m ∷ []) ms) (rest.read (out ++ (m ∷ []))));
    }

-- Mappings that can be written are written without an error, and `parse_vds_blob` reads them back
-- from the block.
pub parse_vds_blob-encode_vds_blob :
    (ms : List VdsMapping)
    → length ms < 2 ^ 64
    → All IsMapping ms
    → (blob : List ℕ) × (encode_vds_blob ms ≡ ok blob) × (parse_vds_blob blob ≡ ok ms)
unfolding encode_vds_blob parse_vds_blob parse_all
parse_vds_blob-encode_vds_blob ms h hs =
    let entries = mappings-WrittenMappings ms hs in
    let n = length ms in
    let body : List ℕ = 0 ∷ (to_le 8 n ++ entries.bytes) in
    let read : Reads (read_u8 >>= parse_all) body ms = >>=-Reads parse_all (u8-Reads 0) (record {
      run = (>>=-Reads (λ k. parse_entries 0 k []) (u64-Reads n h) (entries.read [])).run;
    }) in
    (
      body ++ to_le 4 (checksum body),
      rw (entries.written ((u8 0 then u64 n) empty)) refl,
      ap value_of (read.run [] (to_le 4 (checksum body))),
    )
