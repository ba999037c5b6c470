-- ===== src/Handle/Wire.antt =====
-- Control messages as bytes: an `int` is copied byte by byte into a frame and out of it, on a
-- little-endian machine with 4-byte integers.
use lsd.Common.{
  ℕ, ◌+◌, ◌*◌, ◌/◌, ◌%◌, ◌^◌, ◌<◌, ◌≡◌, arith, List, [], ◌∷◌, length, ltb, if◌then◌else◌, Result,
  ok, err, undefined,
}

abbrev pub control_nothing : ℕ
control_nothing = 0

abbrev pub control_connect : ℕ
control_connect = 1

abbrev pub control_reconnect : ℕ
control_reconnect = 2

abbrev pub control_disconnect : ℕ
control_disconnect = 3

abbrev pub control_connect_new_hosts : ℕ
control_connect_new_hosts = 4

abbrev pub control_kill : ℕ
control_kill = 5

-- memcpy(message.data(), &control_message, sizeof(int))
unfoldable pub int_bytes : ℕ → List ℕ
int_bytes n = n % 256 ∷ n / 256 % 256 ∷ n / 65536 % 256 ∷ n / 16777216 % 256 ∷ []

unfoldable pub little_endian : List ℕ → ℕ
little_endian [] = 0
little_endian (b ∷ bs) = b + 256 * little_endian bs

-- memcpy(&received_message, reply.data(), reply.size()) over an int that is 0
unfoldable pub received_int : List ℕ → Result ℕ
unfolding little_endian
received_int bytes = if ltb 4 (length bytes) then err undefined else ok (little_endian bytes)

-- boost::lexical_cast<std::string>(n) for one digit
unfoldable pub digit_bytes : ℕ → List ℕ
digit_bytes n = (48 + n) ∷ []

-- A control message below 2 ^ 32 that was copied into a frame is read out as it was.
pub received_int-int_bytes : (n : ℕ) → n < 2 ^ 32 → received_int (int_bytes n) ≡ ok n
unfolding received_int int_bytes
received_int-int_bytes n h = ground arith
