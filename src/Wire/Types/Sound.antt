-- ===== src/Wire/Types/Sound.antt =====
-- Types whose numbers are in the bounds that the reader of values relies on.
use ze_db.Prelude.{◌≤◌}
use ze_db.Wire.Types.{ChType, ChTypes}

abbrev mutual
  pub IsSound : ChType → Type 0
  IsSound (ChType.fixed_string n) = n ≤ 67108864
  IsSound (ChType.date_time64 p tz) = p ≤ 9
  IsSound (ChType.decimal p scale) = (1 ≤ p) × (p ≤ 38) × (scale ≤ p)
  IsSound (ChType.nullable t) = IsSound t
  IsSound (ChType.low_cardinality t) = IsSound t
  IsSound (ChType.array t) = IsSound t
  IsSound (ChType.tuple ts) = AreSound ts
  IsSound (ChType.map k t) = IsSound k × IsSound t
  IsSound _ = Unit

  pub AreSound : ChTypes → Type 0
  AreSound ChTypes.nil = Unit
  AreSound (ChTypes.cons t ts) = IsSound t × AreSound ts

-- Types without a `Date32`, whose dates may lie out of chrono's range.
abbrev mutual
  pub HasNoDate32 : ChType → Type 0
  HasNoDate32 ChType.date32 = ⊥
  HasNoDate32 (ChType.nullable t) = HasNoDate32 t
  HasNoDate32 (ChType.low_cardinality t) = HasNoDate32 t
  HasNoDate32 (ChType.array t) = HasNoDate32 t
  HasNoDate32 (ChType.tuple ts) = HaveNoDate32 ts
  HasNoDate32 (ChType.map k t) = HasNoDate32 k × HasNoDate32 t
  HasNoDate32 _ = Unit

  pub HaveNoDate32 : ChTypes → Type 0
  HaveNoDate32 ChTypes.nil = Unit
  HaveNoDate32 (ChTypes.cons t ts) = HasNoDate32 t × HaveNoDate32 ts
