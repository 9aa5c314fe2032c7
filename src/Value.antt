-- ===== src/Value.antt =====
-- crates/f4kvs-value/src/value.rs: the values that the store holds. JSON values are those of
-- `serde_json`: their type is the parameter `J`, and `json_len` is the length of what
-- `to_string` prints. An `f64` and an `i64` are their 64 bits.
use f4kvs_lsm.Base.{ℕ, Bool, true, false, List, Key, length}

pub data Value (J : Type 0) : Type 0 where
  string : Key → Value J
  int64 : ℕ → Value J
  uint64 : ℕ → Value J
  float64 : ℕ → Value J
  bool : Bool → Value J
  bytes : List ℕ → Value J
  json : J → Value J
  null : Value J

-- `matches!(value, Value::Null)`
unfoldable pub is_null : {J : Type 0} → Value J → Bool
is_null null = true
is_null _ = false

-- `estimate_value_size`, in bytes; `serialized_size` has the same arms
unfoldable pub estimate_value_size : {J : Type 0} → (J → ℕ) → Value J → ℕ
estimate_value_size json_len (string s) = length s
estimate_value_size json_len (int64 _) = 8
estimate_value_size json_len (uint64 _) = 8
estimate_value_size json_len (float64 _) = 8
estimate_value_size json_len (bool _) = 1
estimate_value_size json_len (bytes b) = length b
estimate_value_size json_len (json v) = json_len v
estimate_value_size json_len null = 0
