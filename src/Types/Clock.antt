-- ===== src/Types/Clock.antt =====
-- common/Types.cpp: the readings of the clock and the log's timestamp. The clock is the number of nanoseconds
-- since 1970; `localtime_r` is an argument.
use sim_vision_sdk.Prelude.{
  ℕ, ◌+◌, ◌-◌, ◌*◌, ◌/◌, ◌%◌, ◌≤◌, ◌<◌, ◌≡◌, ◌⊎◌, inl, inr, ◌++◌, Text, text, arith, length,
  replicate, dec_lt,
}
use sim_vision_sdk.Prelude.Search.{to_string}

abbrev pub billion : ℕ
billion = 1000000000

unfoldable pub now_unix_sec : ℕ → ℕ
now_unix_sec clock = clock / billion

unfoldable pub now_unix_nsec : ℕ → ℕ
now_unix_nsec clock = clock - clock / billion * billion

-- What a pair of seconds and nanoseconds stands for.
abbrev pub nanoseconds : ℕ → ℕ → ℕ
nanoseconds sec nsec = sec * billion + nsec

-- Let a timestamp be made of a call of `now_unix_sec` and a later call of `now_unix_nsec`. If less than a second passes
-- in between, it is the time of the later call when both fall into the same second, and otherwise it is one second too
-- early, before the time of the earlier call.
pub timestamp_lem :
    (first second : ℕ)
    → first ≤ second
    → second < first + billion
    → let stamp = nanoseconds (now_unix_sec first) (now_unix_nsec second) in
      ((now_unix_sec first ≡ now_unix_sec second) × (stamp ≡ second))
      ⊎ ((now_unix_sec first + 1 ≡ now_unix_sec second)
          × (stamp + billion ≡ second)
          × (stamp < first))
unfolding now_unix_sec now_unix_nsec
timestamp_lem first second le near = elim (dec_lt (first / billion) (second / billion)) [
  | yes p ↦ inr (omega arith, omega arith, omega arith)
  | no p ↦ inl (omega arith, omega arith)
]

-- `%0wd` of a number that is not negative
abbrev pub padded : ℕ → ℕ → Text
padded w n = replicate (w - length (to_string n)) 48 ++ to_string n

-- `std::tm`
pub record Tm : Type 0 where
  pub tm_year : ℕ
  pub tm_mon : ℕ
  pub tm_mday : ℕ
  pub tm_hour : ℕ
  pub tm_min : ℕ
  pub tm_sec : ℕ

-- `snprintf` into 48 bytes, which the text never fills.
unfoldable pub format_log_timestamp : (ℕ → Tm) → ℕ → Text
format_log_timestamp localtime clock =
    let tm = localtime (clock / billion) in
    let date = padded 4 (tm.tm_year + 1900) ++ padded 2 (tm.tm_mon + 1) ++ padded 2 tm.tm_mday in
    let time = padded 2 tm.tm_hour ++ padded 2 tm.tm_min ++ padded 2 tm.tm_sec in
    date ++ text "-" ++ time ++ text "-" ++ padded 3 (clock % billion / 1000000)
