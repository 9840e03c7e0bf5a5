-- ===== src/Timestamp.antt =====
-- base/Timestamp.h and base/Timestamp.cpp: a count of microseconds. Times are not before 1970. The
-- differences in seconds, which are floating-point numbers, and the formatted date are left out.
pub mod Seconds
use cly_server.Base.{
  ℕ, ◌+◌, ◌-◌, ◌*◌, ◌/◌, ◌%◌, Bool, List, [], ◌∷◌, ◌++◌, ltb, ◌==◌, length, replicate,
}
use cly_server.Base.Decimal.{decimal}

pub record Timestamp : Type 0 where
  pub micro_seconds_since_epoch : ℕ

abbrev pub micro_seconds_per_second : ℕ
micro_seconds_per_second = 1000 * 1000

unfoldable pub invalid : Timestamp
invalid = record { micro_seconds_since_epoch = 0 }

unfoldable pub valid : Timestamp → Bool
valid t = ltb 0 t.micro_seconds_since_epoch

unfoldable pub swap_times : Timestamp → Timestamp → Timestamp × Timestamp
swap_times a b = (b, a)

unfoldable pub seconds_since_epoch : Timestamp → ℕ
seconds_since_epoch t = t.micro_seconds_since_epoch / micro_seconds_per_second

unfoldable pub from_unix_time : ℕ → ℕ → Timestamp
from_unix_time t microseconds = record {
  micro_seconds_since_epoch = t * micro_seconds_per_second + microseconds;
}

-- `now`, by what `gettimeofday` gives.
unfoldable pub now : ℕ → ℕ → Timestamp
now tv_sec tv_usec = record {
  micro_seconds_since_epoch = tv_sec * micro_seconds_per_second + tv_usec;
}

unfoldable pub is_before : Timestamp → Timestamp → Bool
is_before lhs rhs = ltb lhs.micro_seconds_since_epoch rhs.micro_seconds_since_epoch

unfoldable pub is_same : Timestamp → Timestamp → Bool
is_same lhs rhs = lhs.micro_seconds_since_epoch == rhs.micro_seconds_since_epoch

-- "%06d".
unfoldable pub padded : ℕ → List ℕ
padded n = replicate (6 - length (decimal n)) b'0' ++ decimal n

-- A count of 64 bits has at most 14 digits of seconds, so the array of 32 bytes is large enough.
unfoldable pub to_string : Timestamp → List ℕ
to_string t =
    decimal (t.micro_seconds_since_epoch / micro_seconds_per_second)
    ++ (b'.' ∷ padded (t.micro_seconds_since_epoch % micro_seconds_per_second))
