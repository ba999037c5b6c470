-- ===== src/Examples/Times.antt =====
-- The theorems on times, applied to concrete ones.
use lsd.Common.{◌≡◌, arith}
use lsd.Common.Int.{pos, negsuc}
use lsd.TimeValue.{TimeValue, normalize, microseconds, distance_micros}
use lsd.TimeValue.Distance.{IsNormal, normalize-ends, distance_micros_lem}

-- Two seconds, less one and a half.
abbrev borrowed : TimeValue
borrowed = record { tv_sec = pos 2; tv_usec = negsuc 1499999 }

normalize-ends_example : IsNormal borrowed (normalize 1500000 borrowed)
normalize-ends_example = normalize-ends 1500000 borrowed (omega arith)

abbrev early : TimeValue
early = record { tv_sec = pos 10; tv_usec = pos 700000 }

abbrev late : TimeValue
late = record { tv_sec = pos 12; tv_usec = pos 200000 }

distance_micros_lem_example : distance_micros early late ≡ pos 1500000
unfolding microseconds
distance_micros_lem_example = distance_micros_lem early late
