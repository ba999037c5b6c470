-- ===== src/Error.antt =====
-- include/details/error.hpp, library/error.cpp: the exception of the library. Elsewhere an error is its
-- type alone. What vsnprintf would write of the arguments is an input, cut between characters.
use Prim.Native.String.{slice}
use lsd.Common.{String, Option, none, some, ErrorType, unknown_error}

-- `type` is none where it is indeterminate.
pub record Error : Type 0 where
  pub message : String
  pub type : Option ErrorType

-- error::error(type, format, ...); the buffer ends with a zero.
unfoldable pub new_error_of : ErrorType → String → Error
new_error_of type text = record { message = slice text 0 511; type = some type }

-- error::error(format, ...)
unfoldable pub new_error : String → Error
unfolding new_error_of
new_error text = new_error_of unknown_error text

-- error::error(other), which leaves `type_` as it is
unfoldable pub copy_error : Error → Error
copy_error other = record { message = other.message; type = none }

-- error::operator =
unfoldable pub assign_error : Error → Error → Error
assign_error other e = record e { message = other.message }

unfoldable pub what : Error → String
what e = e.message
