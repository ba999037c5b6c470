-- ===== src/TimeValue.antt =====
-- library/time_value.cpp: a `timeval`, with `long` parts. Arithmetic on `long` does not wrap in the
-- model (an overflow is undefined in C++); doubles are those of `Double`.
pub mod Distance
use lsd.Common.{ℕ, zero, suc, Bool, true, false, not, ◌&&◌, if◌then◌else◌}
use lsd.Common.Int.{ℤ, pos, negsuc, neg_part, ◌+ℤ◌, ◌-ℤ◌, ◌*ℤ◌, ◌/ℤ◌, eq_ℤ}
use lsd.Structs.{Double}

pub record TimeValue : Type 0 where
  pub tv_sec : ℤ
  pub tv_usec : ℤ

-- time_value::time_value()
unfoldable pub zero_time : TimeValue
zero_time = record { tv_sec = pos 0; tv_usec = pos 0 }

unfoldable pub seconds : TimeValue → ℤ
seconds t = t.tv_sec

unfoldable pub minutes : TimeValue → ℤ
unfolding seconds
minutes t = seconds t /ℤ 60

unfoldable pub hours : TimeValue → ℤ
unfolding minutes
hours t = minutes t /ℤ 60

unfoldable pub days : TimeValue → ℤ
unfolding hours
days t = hours t /ℤ 24

unfoldable pub milliseconds : TimeValue → ℤ
milliseconds t = (t.tv_sec *ℤ 1000) +ℤ (t.tv_usec /ℤ 1000)

unfoldable pub microseconds : TimeValue → ℤ
microseconds t = (t.tv_sec *ℤ 1000000) +ℤ t.tv_usec

unfoldable pub drop_microseconds : TimeValue → TimeValue
drop_microseconds t = record t { tv_usec = pos 0 }

-- time_value::operator ==
unfoldable pub time_eq : TimeValue → TimeValue → Bool
time_eq a b = eq_ℤ a.tv_sec b.tv_sec && eq_ℤ a.tv_usec b.tv_usec

-- time_value::operator !=
unfoldable pub time_neq : TimeValue → TimeValue → Bool
unfolding time_eq
time_neq a b = not (time_eq a b)

-- time_value::empty
unfoldable pub is_empty : TimeValue → Bool
unfolding time_eq zero_time
is_empty t = time_eq t zero_time

-- time_value::reset, whose body compares, `*this == time_value()`, and assigns nothing
unfoldable pub reset : TimeValue → TimeValue
reset t = t

-- One round of the loop of `distance`: a second is turned into microseconds.
unfoldable pub borrow : TimeValue → TimeValue
borrow t = record { tv_sec = t.tv_sec -ℤ pos 1; tv_usec = t.tv_usec +ℤ pos 1000000 }

abbrev pub is_negative : ℤ → Bool
is_negative (pos n) = false
is_negative (negsuc n) = true

-- `while (temp_diff.tv_usec < 0)`, on fuel
unfoldable pub normalize : ℕ → TimeValue → TimeValue
unfolding borrow
normalize zero t = t
normalize (suc fuel) t =
    let rest = normalize fuel (borrow t) in if is_negative t.tv_usec then rest else t

-- The `long long distance` of time_value::distance, in microseconds, for two distinct objects.
unfoldable pub distance_micros : TimeValue → TimeValue → ℤ
unfolding normalize microseconds
distance_micros this rhs =
    let usec = rhs.tv_usec -ℤ this.tv_usec in
    microseconds
      (normalize (neg_part usec) (record { tv_sec = rhs.tv_sec -ℤ this.tv_sec; tv_usec = usec }))

-- time_value::init_from_current_time, where gettimeofday gives `now`; progress_timer::reset
unfoldable pub init_from_current_time : (now : TimeValue) → TimeValue → TimeValue
init_from_current_time now t = record { tv_sec = now.tv_sec; tv_usec = now.tv_usec }

module _ {D : Type 0} (d : Double D) where
  -- 1000000.0
  million : D
  million = d.of_long (pos 1000000)

  -- time_value::time_value(double)
  unfoldable pub of_double : D → TimeValue
  unfolding million
  of_double tv =
      let sec = d.trunc tv in
      record { tv_sec = sec; tv_usec = d.trunc (d.mul (d.sub tv (d.of_long sec)) million) }

  unfoldable pub as_double : TimeValue → D
  unfolding million
  as_double t = d.add (d.of_long t.tv_sec) (d.div (d.of_long t.tv_usec) million)

  -- time_value::operator >
  unfoldable pub time_gt : TimeValue → TimeValue → Bool
  unfolding as_double
  time_gt a b = d.lt (as_double b) (as_double a)

  -- time_value::operator >=
  unfoldable pub time_ge : TimeValue → TimeValue → Bool
  unfolding as_double
  time_ge a b = d.le (as_double b) (as_double a)

  -- time_value::operator <
  unfoldable pub time_lt : TimeValue → TimeValue → Bool
  unfolding as_double
  time_lt a b = d.lt (as_double a) (as_double b)

  -- time_value::operator <=
  unfoldable pub time_le : TimeValue → TimeValue → Bool
  unfolding as_double
  time_le a b = d.le (as_double a) (as_double b)

  -- time_value::distance
  unfoldable pub distance : TimeValue → TimeValue → D
  unfolding distance_micros million
  distance this rhs = d.fabs (d.div (d.of_long (distance_micros this rhs)) million)

  -- time_value::operator +
  unfoldable pub plus : TimeValue → D → TimeValue
  unfolding of_double as_double
  plus t interval = of_double (d.add (as_double t) interval)

  -- time_value::operator -, which stops at the zero time
  unfoldable pub minus : TimeValue → D → TimeValue
  unfolding of_double as_double zero_time
  minus t interval =
      if d.le interval (as_double t) then of_double (d.sub (as_double t) interval) else zero_time

  -- time_value::operator +=
  unfoldable pub plus_assign : TimeValue → D → TimeValue
  unfolding of_double as_double
  plus_assign t interval = of_double (d.add (as_double t) interval)

  -- time_value::operator -=
  unfoldable pub minus_assign : TimeValue → D → TimeValue
  unfolding of_double as_double zero_time
  minus_assign t interval =
      if d.le interval (as_double t) then of_double (d.sub (as_double t) interval) else zero_time

  -- progress_timer::elapsed, at the current time `now`
  unfoldable pub elapsed : TimeValue → TimeValue → TimeValue
  unfolding time_gt of_double distance zero_time
  elapsed begin now = if time_gt begin now then zero_time else of_double (distance now begin)
