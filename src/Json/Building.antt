-- ===== src/Json/Building.antt =====
-- The calls by which the program builds a value of the JSON library.
use lsd.Common.{ℕ, String, Bool, true, Option, some, ◌≡◌}
use lsd.Common.Int.{ℤ}

-- `set name v w` is the assignment w[name] = v; `is_object` is Value::isObject.
pub record Builder : Type 1 where
  pub Value : Type 0
  pub null : Value
  pub text : String → Value
  pub number : ℕ → Value
  pub integer : ℤ → Value
  pub boolean : Bool → Value
  pub set : String → Value → Value → Value
  pub is_object : Value → Bool
  pub member_of : String → Value → Option Value

-- What the library documents: isObject answers true for null and for objects, an assignment to a member
-- makes an object of null, and the member is then what was assigned.
pub record Laws (b : Builder) : Type 0 where
  pub null_object : b.is_object b.null ≡ true
  pub set_object :
      (name : String) (v w : b.Value) → b.is_object w ≡ true → b.is_object (b.set name v w) ≡ true
  pub member_of_set :
      (name : String) (v w : b.Value)
      → b.is_object w ≡ true
      → b.member_of name (b.set name v w) ≡ some v
