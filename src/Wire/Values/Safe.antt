-- ===== src/Wire/Values/Safe.antt =====
-- `read_value` without a panic, on bytes and at types without `Date32`.
use ze_db.Prelude.{ℕ, zero, suc, ◌+◌, ◌≤◌, ◌<◌, ◌≡◌, inl, inr, true, false, List, [], ◌∷◌, arith}
use ze_db.Prelude.Tests.{ltb, Bool-cases}
use ze_db.Prelude.Lists.{length, take}
use ze_db.Prelude.Text.{Text}
use ze_db.Wire.Types.Sound.{IsSound, AreSound, HasNoDate32, HaveNoDate32}
use ze_db.Wire.Types.{ℤ, ChType, ChTypes, Value, Outside, pos}
use ze_db.Wire.Reader.{Input, Reader, ◌>>=◌, take_bytes, u8}
use ze_db.Wire.Reader.Safe.{
  AreBytes, Ends, drop-AreBytes, IsSafe, safe, >>=-IsSafe, return-IsSafe, if-IsSafe, ensure-IsSafe,
  u8-IsSafe, bounded_len-IsSafe,
}
use ze_db.Wire.Values.{
  le_value, le, le_signed, text_value, enum_name, repeat_items, repeat_pairs, ticks_value,
  time_value, date_value, enter, read_value, read_types,
}

le-IsSafe : (n : ℕ) → IsSafe (le n)
unfolding le
le-IsSafe n = search safe

le_signed-IsSafe : (n : ℕ) → IsSafe (le_signed n)
le_signed-IsSafe n = search (safe, le-IsSafe)

text_value-IsSafe : IsSafe text_value
text_value-IsSafe = search safe

enum_name-IsSafe : (entries : List (Text × ℤ)) (v : ℤ) → IsSafe (enum_name entries v)
enum_name-IsSafe [] v = search safe
enum_name-IsSafe ((name, ev) ∷ entries) v =
    if-IsSafe _ _ _ (return-IsSafe _) (enum_name-IsSafe entries v)

repeat_items-IsSafe : (n : ℕ) (item : Reader Value) → IsSafe item → IsSafe (repeat_items n item)
unfolding repeat_items
repeat_items-IsSafe zero item h = return-IsSafe _
repeat_items-IsSafe (suc n) item h =
    >>=-IsSafe item _ h λ v. >>=-IsSafe _ _ (repeat_items-IsSafe n item h) (λ vs. return-IsSafe _)

repeat_pairs-IsSafe :
    (n : ℕ) (key value : Reader Value)
    → IsSafe key
    → IsSafe value
    → IsSafe (repeat_pairs n key value)
unfolding repeat_pairs
repeat_pairs-IsSafe zero key value h k = return-IsSafe _
repeat_pairs-IsSafe (suc n) key value h k = >>=-IsSafe key _ h λ x.
    >>=-IsSafe value _ k
      λ y. >>=-IsSafe _ _ (repeat_pairs-IsSafe n key value h k) (λ ps. return-IsSafe _)

module _ (o : Outside)
    (in_range : (days : ℕ) → days < 65536 → o.date_in_range (pos days) ≡ true) where
  enter-IsSafe : (depth : ℕ) → IsSafe (enter o depth)
  enter-IsSafe depth = search safe

  time_value-IsSafe : (secs : ℤ) (nanos : ℕ) → IsSafe (time_value o secs nanos)
  time_value-IsSafe secs nanos = search safe

  ticks_value-IsSafe : (p : ℕ) (ticks : ℤ) → p ≤ 9 → IsSafe (ticks_value o p ticks)
  ticks_value-IsSafe p ticks h =
      let f : ltb 9 p ≡ false = ground arith in rw f (time_value-IsSafe _ _)

  -- A day is read from two bytes.
  two_bytes : (t : Text) → AreBytes t → le_value (take 2 t) < 65536
  unfolding le_value
  two_bytes [] h = omega arith
  two_bytes (b ∷ []) h = let x = h.0 in omega arith
  two_bytes (b ∷ c ∷ t) h = let x = h.0 in let y = h.1.0 in omega arith

  date-IsSafe : IsSafe (le 2 >>= λ days. date_value o (pos days))
  unfolding le take_bytes
  date-IsSafe = record { ends = date-Ends }
    where
      date-Ends :
          (i : Input) → AreBytes i.rest → Ends ((le 2 >>= λ days. date_value o (pos days)) i)
      date-Ends i h = elim (Bool-cases (ltb (length i.rest) 2)) [
        | inl short ↦ rw short tt
        | inr f ↦
            rw (f, in_range (le_value (take 2 i.rest)) (two_bytes i.rest h))
              (drop-AreBytes 2 i.rest h)
      ]

  ruleset parts = (
    safe, le-IsSafe, le_signed-IsSafe, text_value-IsSafe, enum_name-IsSafe, enter-IsSafe,
    time_value-IsSafe, date-IsSafe, repeat_items-IsSafe, repeat_pairs-IsSafe,
  )

  mutual
    unfolding read_value

    pub read_value-IsSafe :
        (t : ChType) (depth : ℕ) → IsSound t → HasNoDate32 t → IsSafe (read_value o t depth)
    read_value-IsSafe ChType.uint8 depth h n = search parts
    read_value-IsSafe (ChType.decimal p scale) depth h n = search parts
    read_value-IsSafe (ChType.enum8 entries) depth h n = search parts
    read_value-IsSafe (ChType.date_time64 p tz) depth h n =
        >>=-IsSafe _ _ (enter-IsSafe depth)
          λ _. >>=-IsSafe _ _ (le_signed-IsSafe 8) (λ ticks. ticks_value-IsSafe p ticks h)
    read_value-IsSafe (ChType.nullable t) depth h n = >>=-IsSafe _ _ (enter-IsSafe depth) λ _.
        >>=-IsSafe u8 _ u8-IsSafe
          λ flag. if-IsSafe _ _ _ (read_value-IsSafe t (depth + 1) h n) (return-IsSafe _)
    read_value-IsSafe (ChType.low_cardinality t) depth h n =
        >>=-IsSafe _ _ (enter-IsSafe depth) (λ _. read_value-IsSafe t (depth + 1) h n)
    read_value-IsSafe (ChType.array t) depth h n = >>=-IsSafe _ _ (enter-IsSafe depth) λ _.
        >>=-IsSafe _ _ (bounded_len-IsSafe _) λ len. >>=-IsSafe _ _ (ensure-IsSafe len) λ _.
          >>=-IsSafe _ _ (repeat_items-IsSafe len _ (read_value-IsSafe t (depth + 1) h n))
            (λ vs. return-IsSafe _)
    read_value-IsSafe (ChType.tuple ts) depth h n = >>=-IsSafe _ _ (enter-IsSafe depth) λ _.
        >>=-IsSafe _ _ (ensure-IsSafe _)
          λ _. >>=-IsSafe _ _ (read_types-IsSafe ts (depth + 1) h n) (λ vs. return-IsSafe _)
    read_value-IsSafe (ChType.map k t) depth h n = >>=-IsSafe _ _ (enter-IsSafe depth) λ _.
        >>=-IsSafe _ _ (bounded_len-IsSafe _) λ len. >>=-IsSafe _ _ (ensure-IsSafe _) λ _.
          >>=-IsSafe _ _
            (repeat_pairs-IsSafe len _ _ (read_value-IsSafe k (depth + 1) h.0 n.0)
              (read_value-IsSafe t (depth + 1) h.1 n.1))
            (λ ps. return-IsSafe _)
    read_value-IsSafe ChType.date32 depth h n = absurd n
    read_value-IsSafe ChType.date depth h n = >>=-IsSafe _ _ (enter-IsSafe depth) (λ _. date-IsSafe)
    read_value-IsSafe _ depth h n = search parts

    read_types-IsSafe :
        (ts : ChTypes) (depth : ℕ) → AreSound ts → HaveNoDate32 ts → IsSafe (read_types o ts depth)
    read_types-IsSafe ChTypes.nil depth h n = search safe
    read_types-IsSafe (ChTypes.cons t ts) depth h n =
        >>=-IsSafe _ _ (read_value-IsSafe t depth h.0 n.0)
          λ v. >>=-IsSafe _ _ (read_types-IsSafe ts depth h.1 n.1) (λ vs. return-IsSafe _)
