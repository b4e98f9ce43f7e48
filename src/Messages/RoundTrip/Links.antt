-- ===== src/Messages/RoundTrip/Links.antt =====
-- The message of a link is read back.
use hdf5_rs.Prelude.{
  ℕ, ◌^◌, ◌<◌, ◌≡◌, refl, ap, subst, List, [], ◌∷◌, ◌++◌, length, Bool, true, false, ◌==◌,
  append-nil, if◌then◌else◌, Option, some, Result, ok,
}
use hdf5_rs.Arena.{Text, LinkTarget, hard, soft, external, Link}
use hdf5_rs.Buffer.{take_bytes, read_u8, read_u64, read_uint}
use hdf5_rs.Buffer.Parser.{
  Parser, ◌>>=◌, pure, Reads, Reads-whole, >>=-Reads, pure-Reads, Reads-from, u8-Reads, take-Reads,
}
use hdf5_rs.Buffer.Writing.{Writes, raw-Writes, then-Writes}
use hdf5_rs.Datatype.Names.{lossy}
use hdf5_rs.Messages.{new_buf}
use hdf5_rs.Messages.LinkMessage.{
  len_class, type_present, type_code, link_flags, write_head, encode_link_message, parse_target,
  link_of, read_if, parse_link_fields, parse_link_body, parse_link_version, parse_link_bytes,
  open_link, open_read, parse_link_message,
}
use hdf5_rs.Messages.RoundTrip.Targets.{
  target_code, IsTarget, at_address, target-Reads, target-Writes,
}
use hdf5_rs.Messages.RoundTrip.LinkFlags.{
  bytes_if, len_code, IsClass, len_class-IsClass, len-Writes, len-Reads, Flags, link_flags-Flags,
  optional-Reads, optional-Writes,
}
use hdf5_rs.Buffer.Writing.{append_seven}

-- A link that can be stored: its name has a length of 32 bits, and its texts are UTF-8.
pub record IsStoredLink (l : Link) : Type 0 where
  pub long : length l.name < 2 ^ 32
  pub utf8 : lossy l.name ≡ l.name
  pub target : IsTarget l.target

type_kept : (t : LinkTarget) → (if type_present t then type_code t else 0) ≡ type_code t
type_kept (hard id) = refl
type_kept (soft path) = refl
type_kept (external file path) = refl

charset_kept : (utf8 : Bool) → ((if utf8 then 1 else 0) == 1) ≡ utf8
charset_kept true = refl
charset_kept false = refl

abbrev body_code : Link → ℕ → ℕ → List ℕ
body_code l class oh =
    bytes_if (type_present l.target) (type_code l.target)
    ++ (bytes_if l.utf8 1
        ++ (len_code class (length l.name) ++ (l.name ++ target_code l.target oh)))

-- The link as it is read: with the address of its object and without its place in the order
abbrev pub at_rest : Link → ℕ → Link
at_rest l oh = record l { target = at_address l.target oh; creation_order = 0 }

fields-Reads :
    (l : Link) (class oh : ℕ)
    → IsStoredLink l
    → oh < 2 ^ 64
    → IsClass (length l.name) class
    → Reads
        (parse_link_fields
          (if type_present l.target then 8 else 0)
          0
          (if l.utf8 then 16 else 0)
          class)
        (body_code l class oh)
        (some (at_rest l oh))
unfolding parse_link_fields
fields-Reads l class oh h small is_class =
    let last : ℕ → ℕ → ℕ → Text → Parser (Option Link) = λ link_type order cs name.
      parse_target link_type >>= λ target. pure (link_of (lossy name) order cs target) in
    let fourth : ℕ → ℕ → ℕ → ℕ → Parser (Option Link) =
      λ link_type order cs n. take_bytes n >>= last link_type order cs in
    let third : ℕ → ℕ → ℕ → Parser (Option Link) =
      λ link_type order cs. read_uint (2 ^ class) >>= fourth link_type order cs in
    let second : ℕ → ℕ → Parser (Option Link) =
      λ link_type order. read_if (if l.utf8 then 16 else 0) read_u8 >>= third link_type order in
    let code : ℕ = type_code l.target in
    let cs : ℕ = if l.utf8 then 1 else 0 in
    let kept : link_of (lossy l.name) 0 cs (some (at_address l.target oh)) ≡ some (at_rest l oh) =
      rw (h.utf8, charset_kept l.utf8) refl in
    let typed : Reads (read_if (if type_present l.target then 8 else 0) read_u8)
        (bytes_if (type_present l.target) code) code =
      subst (Reads _ _) (type_kept l.target) (optional-Reads (type_present l.target) 7 code) in
    >>=-Reads (λ link_type. read_if 0 read_u64 >>= second link_type) typed
      (>>=-Reads (second code) (pure-Reads 0) (
        >>=-Reads (third code 0) (optional-Reads l.utf8 15 1) (
          >>=-Reads (fourth code 0 cs) (len-Reads is_class) (
            >>=-Reads (last code 0 cs) (take-Reads l.name) (
              Reads-from (append-nil (target_code l.target oh)) (
                >>=-Reads (λ target. pure (link_of (lossy l.name) 0 cs target))
                  (target-Reads l.target oh small h.target)
                  (rw kept (pure-Reads (some (at_rest l oh))))))))))

body-Reads :
    (l : Link) (class oh flags : ℕ)
    → IsStoredLink l
    → oh < 2 ^ 64
    → IsClass (length l.name) class
    → Flags class (type_present l.target) l.utf8 flags
    → Reads (parse_link_body flags) (body_code l class oh) (some (at_rest l oh))
unfolding parse_link_body
body-Reads l class oh flags h small is_class (typed, ordered, charset, len) =
    rw (typed, ordered, charset, len) (fields-Reads l class oh h small is_class)

abbrev head_code : Link → List ℕ
head_code l =
    let class = len_class (length l.name) in
    (1 ∷ [])
    ++ (link_flags class (type_present l.target) l.utf8 ∷ [])
    ++ bytes_if (type_present l.target) (type_code l.target)
    ++ bytes_if l.utf8 1
    ++ len_code class (length l.name)
    ++ l.name

head-Writes : (l : Link) → IsStoredLink l → Writes (write_head l) (head_code l)
unfolding write_head
head-Writes l h =
    then-Writes
      (then-Writes
        (then-Writes
          (then-Writes
            (then-Writes (raw-Writes (1 ∷ [])) (
              raw-Writes
                (link_flags (len_class (length l.name)) (type_present l.target) l.utf8 ∷ [])))
            (optional-Writes (type_present l.target) (type_code l.target)))
          (optional-Writes l.utf8 1))
        (len-Writes (len_class-IsClass (length l.name) h.long)))
      (raw-Writes l.name)

abbrev link_code : Link → ℕ → List ℕ
link_code l oh =
    let class = len_class (length l.name) in
    1 ∷ link_flags class (type_present l.target) l.utf8 ∷ body_code l class oh

encoded :
    (l : Link) (oh : ℕ) → IsStoredLink l → encode_link_message l (some oh) ≡ ok (link_code l oh)
unfolding encode_link_message
encoded l oh h =
    rw ((head-Writes l h).run new_buf, target-Writes l.target oh _ h.target)
      (ap ok (
        append_seven (1 ∷ [])
          (link_flags (len_class (length l.name)) (type_present l.target) l.utf8 ∷ [])
          (bytes_if (type_present l.target) (type_code l.target)) (bytes_if l.utf8 1)
          (len_code (len_class (length l.name)) (length l.name)) l.name (target_code l.target oh)))

bytes-Reads :
    (l : Link) (oh : ℕ)
    → IsStoredLink l
    → oh < 2 ^ 64
    → Reads parse_link_bytes (link_code l oh) (some (at_rest l oh))
unfolding parse_link_bytes parse_link_version
bytes-Reads l oh h small =
    let class = len_class (length l.name) in
    let is_class = len_class-IsClass (length l.name) h.long in
    record {
      run =
          (>>=-Reads parse_link_version (u8-Reads 1) (
            >>=-Reads parse_link_body (u8-Reads (link_flags class (type_present l.target) l.utf8)) (
              body-Reads l class oh _ h small is_class
                (link_flags-Flags is_class (type_present l.target) l.utf8)))).run;
    }

module _ {S : Type 0} (open_object : ℕ → S → Result (ℕ × S)) where
  -- A link that can be stored is encoded without an error, and read back from its message but for
  -- its place in the order of creation, which is read as 0; a hard one leads to the object that is
  -- opened at the address.
  pub parse_link_message-encode_link_message :
      (l : Link) (oh : ℕ) (s : S)
      → IsStoredLink l
      → oh < 2 ^ 64
      → (body : List ℕ) × (encode_link_message l (some oh) ≡ ok body)
        × (parse_link_message open_object body s ≡ open_link open_object (some (at_rest l oh)) s)
  unfolding parse_link_message
  parse_link_message-encode_link_message l oh s h small = (
    link_code l oh,
    encoded l oh h,
    ap (λ r. open_read open_object r s) (Reads-whole (link_code l oh) (bytes-Reads l oh h small)),
  )
