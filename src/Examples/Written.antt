-- ===== src/Examples/Written.antt =====
-- Values of a JSON library, on which the laws of building hold.
use lsd.Common.{ℕ, String, Bool, true, false, Option, none, some, Ordering, ◌≡◌, refl, arith}
use lsd.Common.Int.{ℤ}
use lsd.OrderedMap.Keys.{text_key}
use lsd.Json.Building.{Builder, Laws}

mutual
  -- The members of an object stand in the order of their names.
  pub data Written : Type 0 where
    null : Written
    text : String → Written
    number : ℕ → Written
    integer : ℤ → Written
    boolean : Bool → Written
    object : Members → Written

  pub data Members : Type 0 where
    no_members : Members
    member : String → Written → Members → Members

abbrev set_member : String → Written → Members → Members
set_member name value no_members = member name value no_members
set_member name value (member other there m) =
    let rest = set_member name value m in
    elim (text_key.cmp name other) [
      | Ordering.lt ↦ member name value (member other there m)
      | Ordering.eq ↦ member other value m
      | Ordering.gt ↦ member other there rest
    ]

-- value[name] = written: null becomes an object; the program does it to nothing else.
abbrev set : String → Written → Written → Written
set name value null = object (member name value no_members)
set name value (object m) = object (set_member name value m)
set name value w = w

abbrev find_member : String → Members → Option Written
find_member name no_members = none
find_member name (member other there m) =
    let rest = find_member name m in
    elim (text_key.cmp name other) [ Ordering.eq ↦ some there | _ ↦ rest ]

-- What a value has under a name.
abbrev member_of : String → Written → Option Written
member_of name (object m) = find_member name m
member_of name w = none

find_member-set_member_self :
    (name : String) (value : Written) (m : Members)
    → find_member name (set_member name value m) ≡ some value
find_member-set_member_self name value no_members = ground (arith, text_key.cmp_refl name)
find_member-set_member_self name value (member other there m) =
    ground (arith, text_key.cmp_refl name, find_member-set_member_self name value m)

abbrev is_object : Written → Bool
is_object null = true
is_object (object m) = true
is_object _ = false

abbrev pub a_builder : Builder
a_builder = record {
  Value = Written;
  null = null;
  text = text;
  number = number;
  integer = integer;
  boolean = boolean;
  set = set;
  is_object = is_object;
  member_of = member_of;
}

set_object : (name : String) (v w : Written) → is_object w ≡ true → is_object (set name v w) ≡ true
set_object name v null h = refl
set_object name v (object m) h = refl
set_object name v (text x) h = cc
set_object name v (number x) h = cc
set_object name v (integer x) h = cc
set_object name v (boolean x) h = cc

member_of_set :
    (name : String) (v w : Written) → is_object w ≡ true → member_of name (set name v w) ≡ some v
member_of_set name v null h = ground (arith, text_key.cmp_refl name)
member_of_set name v (object m) h = find_member-set_member_self name v m
member_of_set name v (text x) h = cc
member_of_set name v (number x) h = cc
member_of_set name v (integer x) h = cc
member_of_set name v (boolean x) h = cc

pub a_builder-Laws : Laws a_builder
a_builder-Laws = record {
  null_object = refl;
  set_object = set_object;
  member_of_set = member_of_set;
}
