-- ===== src/Wire/Values/Stable.antt =====
-- `read_value` on more input.
use ze_db.Prelude.{ℕ, zero, suc, ◌+◌, List, [], ◌∷◌}
use ze_db.Prelude.Text.{Text}
use ze_db.Wire.Types.{ℤ, ChType, ChTypes, Value, Outside}
use ze_db.Wire.Reader.{Reader, u8}
use ze_db.Wire.Reader.Stable.{
  IsStable, stable, >>=-IsStable, return-IsStable, if-IsStable, ensure-IsStable, u8-IsStable,
  bounded_len-IsStable,
}
use ze_db.Wire.Values.{
  le, le_signed, text_value, enum_name, repeat_items, repeat_pairs, ticks_value, enter, read_value,
  read_types,
}

le-IsStable : (n : ℕ) → IsStable (le n)
unfolding le
le-IsStable n = search stable

le_signed-IsStable : (n : ℕ) → IsStable (le_signed n)
le_signed-IsStable n = search (stable, le-IsStable)

text_value-IsStable : IsStable text_value
text_value-IsStable = search stable

enum_name-IsStable : (entries : List (Text × ℤ)) (v : ℤ) → IsStable (enum_name entries v)
enum_name-IsStable [] v = search stable
enum_name-IsStable ((name, ev) ∷ entries) v =
    if-IsStable _ _ _ (return-IsStable _) (enum_name-IsStable entries v)

repeat_items-IsStable :
    (n : ℕ) (item : Reader Value) → IsStable item → IsStable (repeat_items n item)
unfolding repeat_items
repeat_items-IsStable zero item h = return-IsStable _
repeat_items-IsStable (suc n) item h =
    >>=-IsStable item _ h
      λ v. >>=-IsStable _ _ (repeat_items-IsStable n item h) (λ vs. return-IsStable _)

repeat_pairs-IsStable :
    (n : ℕ) (key value : Reader Value)
    → IsStable key
    → IsStable value
    → IsStable (repeat_pairs n key value)
unfolding repeat_pairs
repeat_pairs-IsStable zero key value h k = return-IsStable _
repeat_pairs-IsStable (suc n) key value h k = >>=-IsStable key _ h λ x.
    >>=-IsStable value _ k
      λ y. >>=-IsStable _ _ (repeat_pairs-IsStable n key value h k) (λ ps. return-IsStable _)

module _ (o : Outside) where
  enter-IsStable : (depth : ℕ) → IsStable (enter o depth)
  enter-IsStable depth = search stable

  ticks_value-IsStable : (p : ℕ) (ticks : ℤ) → IsStable (ticks_value o p ticks)
  ticks_value-IsStable p ticks = search stable

  ruleset parts = (
    stable, le-IsStable, le_signed-IsStable, text_value-IsStable, enum_name-IsStable,
    enter-IsStable, ticks_value-IsStable, repeat_items-IsStable, repeat_pairs-IsStable,
  )

  mutual
    unfolding read_value

    pub read_value-IsStable : (t : ChType) (depth : ℕ) → IsStable (read_value o t depth)
    read_value-IsStable ChType.uint8 depth = search parts
    read_value-IsStable (ChType.decimal p scale) depth = search parts
    read_value-IsStable (ChType.enum8 entries) depth = search parts
    read_value-IsStable (ChType.nullable t) depth = >>=-IsStable _ _ (enter-IsStable depth) λ _.
        >>=-IsStable u8 _ u8-IsStable
          λ n. if-IsStable _ _ _ (read_value-IsStable t (depth + 1)) (return-IsStable _)
    read_value-IsStable (ChType.low_cardinality t) depth =
        >>=-IsStable _ _ (enter-IsStable depth) (λ _. read_value-IsStable t (depth + 1))
    read_value-IsStable (ChType.array t) depth = >>=-IsStable _ _ (enter-IsStable depth) λ _.
        >>=-IsStable _ _ (bounded_len-IsStable _) λ len. >>=-IsStable _ _ (ensure-IsStable len) λ _.
          >>=-IsStable _ _ (repeat_items-IsStable len _ (read_value-IsStable t (depth + 1)))
            (λ vs. return-IsStable _)
    read_value-IsStable (ChType.tuple ts) depth = >>=-IsStable _ _ (enter-IsStable depth) λ _.
        >>=-IsStable _ _ (ensure-IsStable _)
          λ _. >>=-IsStable _ _ (read_types-IsStable ts (depth + 1)) (λ vs. return-IsStable _)
    read_value-IsStable (ChType.map k t) depth = >>=-IsStable _ _ (enter-IsStable depth) λ _.
        >>=-IsStable _ _ (bounded_len-IsStable _) λ len. >>=-IsStable _ _ (ensure-IsStable _) λ _.
          >>=-IsStable _ _
            (repeat_pairs-IsStable len _ _ (read_value-IsStable k (depth + 1))
              (read_value-IsStable t (depth + 1)))
            (λ ps. return-IsStable _)
    read_value-IsStable _ depth = search parts

    read_types-IsStable : (ts : ChTypes) (depth : ℕ) → IsStable (read_types o ts depth)
    read_types-IsStable ChTypes.nil depth = search stable
    read_types-IsStable (ChTypes.cons t ts) depth =
        >>=-IsStable _ _ (read_value-IsStable t depth)
          λ v. >>=-IsStable _ _ (read_types-IsStable ts depth) (λ vs. return-IsStable _)
