-- ===== src/Wire/Rows/RoundTrip.antt =====
-- `read_header` on what a writer of the format puts.
use ze_db.Prelude.{ℕ, ◌≤◌, ◌<◌, ◌^◌, ◌≡◌, refl, ap, true, false, List, [], ◌∷◌, ◌++◌, arith}
use mathlib.Core.List.{append_assoc}
use ze_db.Prelude.Tests.{ltb}
use ze_db.Prelude.Lists.{length, take, drop, length-append, All}
use ze_db.Prelude.Text.{Text}
use ze_db.Wire.Types.{ChType, ColumnMeta}
use ze_db.Wire.Reader.{
  Input, Read, take_bytes, bounded_len, header_string, max_header_string_bytes, max_columns,
  max_decoded_values,
}
use ze_db.Prelude.Utf8.{is_utf8}
use ze_db.Wire.Reader.Varuint.{encode, varuint-encode}
use ze_db.Wire.Parse.{parse_type}
use ze_db.Wire.Rows.{read_names, read_column_types, zip_columns, types_of, read_header, at_row}

abbrev pub encode_text : Text → Text
encode_text t = encode (length t) ++ t

abbrev pub encode_texts : List Text → Text
encode_texts [] = []
encode_texts (t ∷ ts) = encode_text t ++ encode_texts ts

-- A column with its type.
abbrev pub Column : Type 0
Column = ColumnMeta × ChType

abbrev pub metas : List Column → List ColumnMeta
metas [] = []
metas ((c, t) ∷ cs) = c ∷ metas cs

abbrev pub kinds : List Column → List ChType
kinds [] = []
kinds ((c, t) ∷ cs) = t ∷ kinds cs

abbrev names : List Column → List Text
names [] = []
names ((c, t) ∷ cs) = c.name ∷ names cs

abbrev type_names : List Column → List Text
type_names [] = []
type_names ((c, t) ∷ cs) = c.type_name ∷ type_names cs

abbrev typed : List Column → List (Text × ChType)
typed [] = []
typed ((c, t) ∷ cs) = (c.type_name, t) ∷ typed cs

-- How a response begins: the count of the columns, their names, and their types.
abbrev pub encode_header : List Column → Text
encode_header cs = encode (length cs) ++ encode_texts (names cs) ++ encode_texts (type_names cs)

abbrev pub IsString : Text → Type 0
IsString t = (length t ≤ max_header_string_bytes) × (is_utf8 t ≡ true)

-- The name and the type's name are short texts, and the type's name is that of the type.
abbrev pub IsColumn : Column → Type 0
IsColumn (c, t) =
    IsString c.name × IsString c.type_name × ((i : Input) × (parse_type c.type_name ≡ Read.ok t i))

abbrev at : Text → ℕ → Input
at rest n = record { rest = rest; budget = n }

take_all : (t rest : Text) → take (length t) (t ++ rest) ≡ t
take_all [] rest = refl
take_all (b ∷ t) rest = ap (λ z. b ∷ z) (take_all t rest)

drop_all : (t rest : Text) → drop (length t) (t ++ rest) ≡ rest
drop_all [] rest = refl
drop_all (b ∷ t) rest = drop_all t rest

take_bytes-all :
    (t rest : Text) (n : ℕ) → take_bytes (length t) (at (t ++ rest) n) ≡ Read.ok t (at rest n)
unfolding take_bytes
take_bytes-all t rest n =
    let f : ltb (length (t ++ rest)) (length t) ≡ false = ground (arith, length-append t rest) in
    rw (f, take_all t rest, drop_all t rest) refl

bounded_len-encode :
    (most v : ℕ) (rest : Text) (n : ℕ)
    → v ≤ most
    → most < 2 ^ 64
    → bounded_len most (at (encode v ++ rest) n) ≡ Read.ok v (at rest n)
unfolding bounded_len
bounded_len-encode most v rest n le lt =
    let f : ltb most v ≡ false = ground arith in rw (varuint-encode v rest n (omega arith), f) refl

header_string-encode :
    (t rest : Text) (n : ℕ)
    → IsString t
    → header_string max_header_string_bytes (at (encode_text t ++ rest) n) ≡ Read.ok t (at rest n)
unfolding header_string
header_string-encode t rest n (short, utf8) =
    rw
      (
        append_assoc (encode (length t)) t rest,
        bounded_len-encode max_header_string_bytes (length t) (t ++ rest) n short (omega arith),
        take_bytes-all t rest n,
        utf8,
      )
      refl

read_names-encode :
    (cs : List Column) (rest : Text) (n : ℕ)
    → All IsColumn cs
    → read_names (length cs) (at (encode_texts (names cs) ++ rest) n)
      ≡ Read.ok (names cs) (at rest n)
unfolding read_names
read_names-encode [] rest n h = refl
read_names-encode ((c, t) ∷ cs) rest n (h, hs) =
    rw
      (
        append_assoc (encode_text c.name) (encode_texts (names cs)) rest,
        header_string-encode c.name (encode_texts (names cs) ++ rest) n h.0,
        read_names-encode cs rest n hs,
      )
      refl

read_column_types-encode :
    (cs : List Column) (rest : Text) (n : ℕ)
    → All IsColumn cs
    → read_column_types (length cs) (at (encode_texts (type_names cs) ++ rest) n)
      ≡ Read.ok (typed cs) (at rest n)
unfolding read_column_types
read_column_types-encode [] rest n h = refl
read_column_types-encode ((c, t) ∷ cs) rest n ((a, b, (i, e)), hs) =
    rw
      (
        append_assoc (encode_text c.type_name) (encode_texts (type_names cs)) rest,
        header_string-encode c.type_name (encode_texts (type_names cs) ++ rest) n b,
        e,
        read_column_types-encode cs rest n hs,
      )
      refl

zip_columns-names : (cs : List Column) → zip_columns (names cs) (typed cs) ≡ metas cs
zip_columns-names [] = refl
zip_columns-names ((c, t) ∷ cs) = ap (λ z. c ∷ z) (zip_columns-names cs)

types_of-typed : (cs : List Column) → types_of (typed cs) ≡ kinds cs
types_of-typed [] = refl
types_of-typed ((c, t) ∷ cs) = ap (λ z. t ∷ z) (types_of-typed cs)

-- The columns of a header come back with their types, and what stands behind it is left.
pub read_header-encode :
    (cs : List Column) (rest : Text)
    → length cs ≤ max_columns
    → All IsColumn cs
    → read_header (at_row (encode_header cs ++ rest))
      ≡ Read.ok (record { columns = metas cs; types = kinds cs }) (at_row rest)
unfolding read_header
read_header-encode cs rest le h =
    let ns = encode_texts (names cs) in
    let ts = encode_texts (type_names cs) in
    let n = max_decoded_values in
    rw
      (
        append_assoc (encode (length cs) ++ ns) ts rest,
        append_assoc (encode (length cs)) ns (ts ++ rest),
        bounded_len-encode max_columns (length cs) (ns ++ (ts ++ rest)) n le (omega arith),
        read_names-encode cs (ts ++ rest) n h,
        read_column_types-encode cs rest n h,
        zip_columns-names cs,
        types_of-typed cs,
      )
      refl
