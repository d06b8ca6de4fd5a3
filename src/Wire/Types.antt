-- ===== src/Wire/Types.antt =====
-- The data of crates/zedb-ch/src/types.rs and crates/zedb-core/src/value.rs.
pub mod Sound
use ze_db.Prelude.{ℕ, List, Option, Bool}
use ze_db.Prelude.Text.{Text}

-- `negsuc n` is -(n + 1).
pub data ℤ : Type 0 where
  pos : ℕ → ℤ
  negsuc : ℕ → ℤ

-- `ChTypes` is `Vec<ChType>`.
mutual
  pub data ChType : Type 0 where
    uint8 uint16 uint32 uint64 uint128 : ChType
    int8 int16 int32 int64 int128 : ChType
    float32 float64 bool string : ChType
    fixed_string : ℕ → ChType
    uuid date date32 : ChType
    date_time : Option Text → ChType
    date_time64 : ℕ → Option Text → ChType
    decimal : ℕ → ℕ → ChType
    enum8 enum16 : List (Text × ℤ) → ChType
    ipv4 ipv6 : ChType
    nullable low_cardinality array : ChType → ChType
    tuple : ChTypes → ChType
    map : ChType → ChType → ChType
    json : ChType

  pub data ChTypes : Type 0 where
    nil : ChTypes
    cons : ChType → ChTypes → ChTypes

-- A float is its 64 bits, a date its days from 1970-01-01, and a time its seconds from then with
-- the nanoseconds. `Values` and `Pairs` are the vectors of an array, a tuple and a map.
mutual
  pub data Value : Type 0 where
    null : Value
    bool : Bool → Value
    int : ℤ → Value
    uint : ℕ → Value
    int128 : ℤ → Value
    uint128 : ℕ → Value
    float : ℕ → Value
    decimal : ℤ → ℕ → Value
    string bytes uuid : Text → Value
    date : ℤ → Value
    date_time : ℤ → ℕ → Value
    enum : Text → Value
    ipv4 : ℕ → Value
    ipv6 : Text → Value
    array tuple : Values → Value
    map : Pairs → Value

  pub data Values : Type 0 where
    nil : Values
    cons : Value → Values → Values

  pub data Pairs : Type 0 where
    end : Pairs
    pair : Value → Value → Pairs → Pairs

pub record ColumnMeta : Type 0 where
  pub name : Text
  pub type_name : Text

pub record QueryResult : Type 0 where
  pub columns : List ColumnMeta
  pub rows : List (List Value)

-- What the decoder calls: the range of chrono's dates and times, and `f64::from(f32)` on bits.
pub record Outside : Type 0 where
  pub date_in_range : ℤ → Bool
  pub time_in_range : ℤ → ℕ → Bool
  pub widen : ℕ → ℕ
