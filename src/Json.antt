-- ===== src/Json.antt =====
-- The calls that the program makes of the JSON library. Its values are a type with these
-- operations, of which nothing is known; where a caller relies on more, it says so.
pub mod Building
use lsd.Common.{ℕ, String, Bool, Option, none, some, List, Result, ok}
use lsd.Common.Attempt.{◌>>=◌}
use lsd.Common.Int.{ℤ}

-- `get` is Value::get, with `none` where it answers the default; `member` and `element` are
-- operator [] with a name and with an index. A call on a value of the wrong type may throw.
pub record Json : Type 1 where
  pub Value : Type 0
  pub parse : String → Option Value
  pub get : Value → String → Result (Option Value)
  pub member : Value → String → Result Value
  pub element : Value → ℕ → Result Value
  pub is_object : Value → Bool
  pub size : Value → ℕ
  pub member_names : Value → Result (List String)
  pub as_string : Value → Result String
  pub as_bool : Value → Result Bool
  pub as_int : Value → Result ℤ
  pub as_uint : Value → Result ℕ

-- The default, or the value that was found.
abbrev or_default {ℓ} : {A V : Type ℓ} → (V → Result A) → A → Option V → Result A
or_default convert default none = ok default
or_default convert default (some v) = convert v

module _ (j : Json) where
  -- value.get(name, default).asString(), and so on
  unfoldable pub get_string : j.Value → String → String → Result String
  get_string v name default = do found ← j.get v name; or_default j.as_string default found

  unfoldable pub get_bool : j.Value → String → Bool → Result Bool
  get_bool v name default = do found ← j.get v name; or_default j.as_bool default found

  unfoldable pub get_int : j.Value → String → ℤ → Result ℤ
  get_int v name default = do found ← j.get v name; or_default j.as_int default found

  unfoldable pub get_uint : j.Value → String → ℕ → Result ℕ
  get_uint v name default = do found ← j.get v name; or_default j.as_uint default found
