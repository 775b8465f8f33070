-- ===== src/Clock.antt =====
-- Package time as the program uses it. A moment is a count of nanoseconds since the start of year
-- 1, the zero of Go's Time; the machine's clock is taken to stand after 1970.
use dmail.Prelude.{
  ℕ, ◌+◌, ◌-◌, ◌*◌, ◌/◌, ◌%◌, ◌^◌, Bool, true, false, Option, none, some, ltb, if◌then◌else◌,
}

abbrev pub second : ℕ
second = 10 ^ 9

abbrev pub hour : ℕ
hour = 3600 * second

-- `unixToInternal`: the seconds from year 1 to 1970.
abbrev pub unix_to_internal : ℕ
unix_to_internal = 62135596800

-- `t.Unix()`
unfoldable pub unix : ℕ → ℕ
unix now = now / second - unix_to_internal

-- A signed number.
pub data ℤ : Type 0 where
  pos negsuc : ℕ → ℤ

-- `int64(x)` of a uint64
unfoldable pub int64 : ℕ → ℤ
int64 x = if ltb x (2 ^ 63) then pos x else negsuc (2 ^ 64 - 1 - x)

-- `time.Unix(int64(sec), 0)` for a uint64: the seconds since year 1 wrap in 64 bits. `none` is a
-- moment before year 1.
unfoldable pub from_unix : ℕ → Option ℕ
from_unix sec =
    let internal = (sec + unix_to_internal) % 2 ^ 64 in
    if ltb internal (2 ^ 63) then some (internal * second) else none

-- `t.After(limit)` and `t.Before(limit)` where `limit` is after year 1.
unfoldable pub is_after : Option ℕ → ℕ → Bool
is_after none limit = false
is_after (some t) limit = ltb limit t

-- `t.Before(now.Add(-d))`
unfoldable pub is_older : Option ℕ → ℕ → ℕ → Bool
is_older none now d = true
is_older (some t) now d = ltb (t + d) now
