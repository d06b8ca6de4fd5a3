-- ===== src/Wire/Parse/Sound.antt =====
-- The types that `parse_type` gives.
use ze_db.Prelude.{
  ℕ, zero, suc, ◌≤◌, ◌≡◌, refl, inl, inr, Bool, true, false, ◌||◌, List, Option, none, some, arith,
}
use mathlib.Core.Path.{subst}
use ze_db.Prelude.Tests.{ltb, ◌==◌, if◌then◌else◌, Bool-cases}
use ze_db.Prelude.Lists.{length}
use ze_db.Prelude.Text.{Text, codes, text_eq}
use ze_db.Wire.Types.{ℤ, ChType, ChTypes}
use ze_db.Wire.Types.Sound.{IsSound, AreSound}
use ze_db.Wire.Reader.{type_syntax, Input, Read, ok, Reader, return, fail}
use ze_db.Wire.Lexer.{
  eat, number, max_u8, max_usize, peek_char, skip_char, skip_parens, enum_entries, closes,
  max_tuple_items, ident, skip_ws, max_type_string_bytes, max_type_depth, max_fixed_string_bytes,
}
use ze_db.Wire.Parse.{
  plain_type, fixed_string_type, date_time64_type, zone_behind_comma, decimal_type,
  sized_decimal_type, wrapped, map_type, behind_quote, named_element, tuple_element, tuple_loop,
  tuple_type, date_time_type, enum_type, json_type, other_type, type_with, type_named, parse, ended,
  parse_type,
}
use ze_db.Wire.Parse.Yields.{
  Holds, Yields, bind-Holds, anything, both-Yields, >>=-Yields, >>-Yields, return-Yields,
  fail-Yields, if-Yields,
}

-- A type without arguments.
record IsPlain (x : Option ChType) : Type 0 where
  sound : (t : ChType) → x ≡ some t → IsSound t

plain : (t : ChType) → IsSound t → IsPlain (some t)
plain t h = record { sound = λ u e. let same : t ≡ u = cc in subst IsSound same h }

no_plain : IsPlain none
no_plain = record { sound = λ t e. absurd cc }

if-IsPlain : (b : Bool) (x y : Option ChType) → IsPlain x → IsPlain y → IsPlain (if b then x else y)
if-IsPlain true x y h k = h
if-IsPlain false x y h k = k

plain_type-IsPlain : (name : Text) → IsPlain (plain_type name)
unfolding plain_type
plain_type-IsPlain name =
    let is = λ (s : Text). text_eq name s in
    if-IsPlain (is (codes "UInt8")) _ _ (plain ChType.uint8 tt) (
      if-IsPlain (is (codes "UInt16")) _ _ (plain ChType.uint16 tt) (
        if-IsPlain (is (codes "UInt32")) _ _ (plain ChType.uint32 tt) (
          if-IsPlain (is (codes "UInt64")) _ _ (plain ChType.uint64 tt) (
            if-IsPlain (is (codes "UInt128")) _ _ (plain ChType.uint128 tt) (
              if-IsPlain (is (codes "Int8")) _ _ (plain ChType.int8 tt) (
                if-IsPlain (is (codes "Int16")) _ _ (plain ChType.int16 tt) (
                  if-IsPlain (is (codes "Int32")) _ _ (plain ChType.int32 tt) (
                    if-IsPlain (is (codes "Int64")) _ _ (plain ChType.int64 tt) (
                      if-IsPlain (is (codes "Int128")) _ _ (plain ChType.int128 tt) (
                        if-IsPlain (is (codes "Float32")) _ _ (plain ChType.float32 tt) (
                          if-IsPlain (is (codes "Float64")) _ _ (plain ChType.float64 tt) (
                            if-IsPlain (is (codes "Bool")) _ _ (plain ChType.bool tt) (
                              if-IsPlain (is (codes "String")) _ _ (plain ChType.string tt) (
                                if-IsPlain (is (codes "UUID")) _ _ (plain ChType.uuid tt) (
                                  if-IsPlain (is (codes "Date")) _ _ (plain ChType.date tt) (
                                    if-IsPlain (is (codes "Date32")) _ _ (plain ChType.date32 tt) (
                                      if-IsPlain (is (codes "IPv4")) _ _ (plain ChType.ipv4 tt) (
                                        if-IsPlain (is (codes "IPv6")) _ _ (plain ChType.ipv6 tt)
                                          (no_plain)))))))))))))))))))

guard-Yields :
    (b : Bool) (t : ChType)
    → (b ≡ false → IsSound t)
    → Yields IsSound (if b then fail type_syntax else return t)
guard-Yields true t h = fail-Yields IsSound type_syntax
guard-Yields false t h = return-Yields IsSound t (h refl)

short_guard :
    (n : ℕ)
    → Yields IsSound
        (if ltb max_fixed_string_bytes n then fail type_syntax else return (ChType.fixed_string n))
short_guard n = guard-Yields _ _ (λ f. ground arith)

digits_guard :
    (p : ℕ) (tz : Option Text)
    → Yields IsSound (if ltb 9 p then fail type_syntax else return (ChType.date_time64 p tz))
digits_guard p tz = guard-Yields _ _ (λ f. ground arith)

decimal_guard :
    (p scale : ℕ)
    → Yields IsSound (
        if p == 0 || (ltb 38 p || ltb p scale)
        then fail type_syntax
        else return (ChType.decimal p scale))
decimal_guard p scale = guard-Yields _ _ (λ f. (ground arith, ground arith, ground arith))

scale_guard :
    (p scale : ℕ)
    → 1 ≤ p
    → p ≤ 38
    → Yields IsSound (if ltb p scale then fail type_syntax else return (ChType.decimal p scale))
scale_guard p scale h k = guard-Yields _ _ (λ f. (h, k, ground arith))

fixed_string_type-Yields : Yields IsSound fixed_string_type
unfolding fixed_string_type
fixed_string_type-Yields =
    >>-Yields IsSound (eat b'(') _ (
      >>=-Yields IsSound (number max_usize) _ (λ n. >>-Yields IsSound (eat b')') _ (short_guard n)))

date_time64_type-Yields : Yields IsSound date_time64_type
unfolding date_time64_type
date_time64_type-Yields = >>-Yields IsSound (eat b'(') _ (
    >>=-Yields IsSound (number max_u8) _ (λ p.
      >>=-Yields IsSound zone_behind_comma _
        (λ tz. >>-Yields IsSound (eat b')') _ (digits_guard p tz))))

decimal_type-Yields : Yields IsSound decimal_type
unfolding decimal_type
decimal_type-Yields = >>-Yields IsSound (eat b'(') _ (
    >>=-Yields IsSound (number max_u8) _ (λ p. >>-Yields IsSound (eat b',') _ (
      >>=-Yields IsSound (number max_u8) _
        (λ scale. >>-Yields IsSound (eat b')') _ (decimal_guard p scale)))))

sized_decimal_type-Yields : (p : ℕ) → 1 ≤ p → p ≤ 38 → Yields IsSound (sized_decimal_type p)
unfolding sized_decimal_type
sized_decimal_type-Yields p h k = >>-Yields IsSound (eat b'(') _ (
    >>=-Yields IsSound (number max_u8) _
      (λ scale. >>-Yields IsSound (eat b')') _ (scale_guard p scale h k)))

date_time_type-Yields : Yields IsSound date_time_type
unfolding date_time_type
date_time_type-Yields =
    >>=-Yields IsSound _ _ (λ tz. return-Yields IsSound (ChType.date_time tz) tt)

enum_type-Yields :
    (make : List (Text × ℤ) → ChType)
    → ((entries : List (Text × ℤ)) → IsSound (make entries))
    → Yields IsSound (enum_type make)
unfolding enum_type
enum_type-Yields make h =
    >>=-Yields IsSound enum_entries _ (λ entries. return-Yields IsSound (make entries) (h entries))

json_type-Yields : Yields IsSound json_type
unfolding json_type
json_type-Yields = >>=-Yields IsSound peek_char _ λ c.
    if-Yields IsSound _ _ _ (>>-Yields IsSound skip_parens _ (return-Yields IsSound ChType.json tt))
      (return-Yields IsSound ChType.json tt)

module _ (inner : Reader ChType) (sound : Yields IsSound inner) where
  wrapped-Yields :
      (make : ChType → ChType)
      → ((t : ChType) → IsSound t → IsSound (make t))
      → Yields IsSound (wrapped inner make)
  unfolding wrapped
  wrapped-Yields make keeps = >>-Yields IsSound (eat b'(') _ (
      both-Yields IsSound IsSound inner _ sound
        (λ t h. >>-Yields IsSound (eat b')') _ (return-Yields IsSound (make t) (keeps t h))))

  map_type-Yields : Yields IsSound (map_type inner)
  unfolding map_type
  map_type-Yields = >>-Yields IsSound (eat b'(') _ (
      both-Yields IsSound IsSound inner _ sound (λ k h. >>-Yields IsSound (eat b',') _ (
        both-Yields IsSound IsSound inner _ sound (λ t h'.
          >>-Yields IsSound (eat b')') _ (return-Yields IsSound (ChType.map k t) (h, h'))))))

  if-Holds :
      (b : Bool) (x y : Read ChType)
      → Holds IsSound x
      → Holds IsSound y
      → Holds IsSound (if b then x else y)
  if-Holds true x y h k = h
  if-Holds false x y h k = k

  named_element-Yields : Yields IsSound (named_element inner)
  named_element-Yields = record {
    yields = λ i.
        bind-Holds (λ _. Unit) IsSound (ident i) _ (anything (ident i))
          λ name after _.
            bind-Holds (λ _. Unit) IsSound (skip_ws after) _ (anything (skip_ws after))
              λ _ behind _.
                if-Holds _ (inner behind) (inner i) (sound.yields behind) (sound.yields i);
  }

  tuple_element-Yields : Yields IsSound (tuple_element inner)
  unfolding tuple_element
  tuple_element-Yields = >>=-Yields IsSound peek_char _ λ c.
      if-Yields IsSound _ _ _
        (>>-Yields IsSound skip_char _
          (record { yields = λ i. sound.yields (record i { rest = behind_quote inner i.rest }) }))
        named_element-Yields

  tuple_loop-Yields : (left : ℕ) → Yields AreSound (tuple_loop inner left)
  unfolding tuple_loop
  tuple_loop-Yields zero = fail-Yields AreSound _
  tuple_loop-Yields (suc left) =
      both-Yields IsSound AreSound (tuple_element inner) _ tuple_element-Yields λ t h.
        >>=-Yields AreSound peek_char _ λ c. >>=-Yields AreSound (closes c) _ λ done.
          if-Yields AreSound _ _ _ (return-Yields AreSound (ChTypes.cons t ChTypes.nil) (h, tt)) (
            both-Yields AreSound AreSound (tuple_loop inner left) _ (tuple_loop-Yields left)
              (λ ts k. return-Yields AreSound (ChTypes.cons t ts) (h, k)))

  tuple_type-Yields : Yields IsSound (tuple_type inner)
  unfolding tuple_type
  tuple_type-Yields = >>-Yields IsSound (eat b'(') _ (
      both-Yields AreSound IsSound (tuple_loop inner max_tuple_items) _
        (tuple_loop-Yields max_tuple_items) (λ ts h. return-Yields IsSound (ChType.tuple ts) h))

  type_with-Yields : (name : Text) → Yields IsSound (type_with inner name)
  unfolding type_with other_type
  type_with-Yields name =
      let is = λ (s : Text). text_eq name s in
      if-Yields IsSound (is (codes "FixedString")) _ _ (fixed_string_type-Yields) (
        if-Yields IsSound (is (codes "DateTime")) _ _ (date_time_type-Yields) (
          if-Yields IsSound (is (codes "DateTime64")) _ _ (date_time64_type-Yields) (
            if-Yields IsSound (is (codes "Decimal")) _ _ (decimal_type-Yields) (
              if-Yields IsSound (is (codes "Decimal32")) _ _
                (sized_decimal_type-Yields 9 (omega arith) (omega arith))
                (if-Yields IsSound (is (codes "Decimal64")) _ _
                  (sized_decimal_type-Yields 18 (omega arith) (omega arith))
                  (if-Yields IsSound (is (codes "Decimal128")) _ _
                    (sized_decimal_type-Yields 38 (omega arith) (omega arith))
                    (if-Yields IsSound (is (codes "Enum8")) _ _
                      (enum_type-Yields ChType.enum8 (λ entries. tt))
                      (if-Yields IsSound (is (codes "Enum16")) _ _
                        (enum_type-Yields ChType.enum16 (λ entries. tt))
                        (if-Yields IsSound (is (codes "Nullable")) _ _
                          (wrapped-Yields ChType.nullable (λ t h. h))
                          (if-Yields IsSound (is (codes "LowCardinality")) _ _
                            (wrapped-Yields ChType.low_cardinality (λ t h. h))
                            (if-Yields IsSound (is (codes "Array")) _ _
                              (wrapped-Yields ChType.array (λ t h. h))
                              (if-Yields IsSound (is (codes "Map")) _ _ (map_type-Yields) (
                                if-Yields IsSound (is (codes "Tuple")) _ _ (tuple_type-Yields) (
                                  if-Yields IsSound (is (codes "JSON")) _ _ (json_type-Yields)
                                    (fail-Yields IsSound _)))))))))))))))

  type_named-Yields : (name : Text) → Yields IsSound (type_named inner name)
  type_named-Yields name = go (plain_type name) (plain_type-IsPlain name)
    where
      go :
          (x : Option ChType)
          → IsPlain x
          → Yields IsSound (elim x [ some t ↦ return t | none ↦ type_with inner name ])
      go none h = type_with-Yields name
      go (some t) h = return-Yields IsSound t (h.sound t refl)

parse-Yields : (levels : ℕ) → Yields IsSound (parse levels)
unfolding parse
parse-Yields zero = fail-Yields IsSound _
parse-Yields (suc levels) =
    >>=-Yields IsSound ident _ (λ name. type_named-Yields (parse levels) (parse-Yields levels) name)

ended-Yields : (t : ChType) → IsSound t → Yields IsSound (ended t)
ended-Yields t h = >>=-Yields IsSound peek_char _ go
  where
    go : (c : Option ℕ) → Yields IsSound (elim c [ none ↦ return t | some d ↦ fail type_syntax ])
    go none = return-Yields IsSound t h
    go (some d) = fail-Yields IsSound type_syntax

parse_type-Holds : (input : Text) → Holds IsSound (parse_type input)
unfolding parse_type
parse_type-Holds input = elim (Bool-cases (ltb max_type_string_bytes (length input))) [
  | inl t ↦ rw t tt
  | inr f ↦ rw f (
      (both-Yields IsSound IsSound (parse max_type_depth) _ (parse-Yields max_type_depth)
          ended-Yields).yields
        (record { rest = input; budget = 0 }))
]

-- A type that is read from a text has its numbers in bounds: nine digits of a second at most, a
-- decimal's precision from one to 38 and its scale no more than that, and a `FixedString` of 64 MiB
-- at most, in all parts of the type.
pub parse_type-IsSound :
    (input : Text) (t : ChType) (i : Input) → parse_type input ≡ ok t i → IsSound t
parse_type-IsSound input t i e = subst (Holds IsSound) e (parse_type-Holds input)
