-- ===== src/Timespec.antt =====
-- ext/sqlite3/timespec.h: the macros over struct timespec. tv_sec and tv_nsec are not negative
-- here: they come from CLOCK_MONOTONIC, or are 0.
use sqlite3_ruby.Base.{
  ℕ, ◌+◌, ◌*◌, ◌<◌, ◌≡◌, Bool, true, ◌&&◌, ◌||◌, not, arith, ltb, ◌==◌, if◌then◌else◌, ℤ, pos,
  sub_ℕ, ltb_ℤ, ◌-ℤ◌, ◌+ℤ◌, pos_part, neg_part,
}
use sqlite3_ruby.Env.{Timespec}

abbrev pub billion : ℕ
billion = 1_000_000_000

abbrev pub timespecclear : Timespec
timespecclear = record { sec = 0; nsec = 0 }

unfoldable pub timespecisset : Timespec → Bool
timespecisset t = not (t.sec == 0) || not (t.nsec == 0)

unfoldable pub timespecisvalid : Timespec → Bool
timespecisvalid t = ltb t.nsec billion

-- `cmp` is the comparison operator that the macro is given.
unfoldable pub timespeccmp : Timespec → Timespec → (ℕ → ℕ → Bool) → Bool
timespeccmp t u cmp = if t.sec == u.sec then cmp t.nsec u.nsec else cmp t.sec u.sec

unfoldable pub timespecafter : Timespec → Timespec → Bool
timespecafter t u = ltb u.sec t.sec || (t.sec == u.sec && ltb u.nsec t.nsec)

-- The difference, whose seconds may be negative.
pub record Interval : Type 0 where
  pub sec : ℤ
  pub nsec : ℤ

unfoldable pub timespecsub : Timespec → Timespec → Interval
unfolding ◌-ℤ◌ ◌+ℤ◌
timespecsub t u =
    let s = sub_ℕ t.sec u.sec in
    let n = sub_ℕ t.nsec u.nsec in
    if ltb_ℤ n (pos 0)
    then record { sec = s -ℤ pos 1; nsec = n +ℤ pos billion }
    else record { sec = s; nsec = n }

-- The time since the clock's origin.
abbrev pub nanoseconds : Timespec → ℕ
nanoseconds t = t.sec * billion + t.nsec

-- For two valid times `timespecafter` is the order of their nanoseconds, and so is `timespeccmp`
-- with the operator <.
pub timespecafter-lt :
    (t u : Timespec)
    → timespecisvalid t ≡ true
    → timespecisvalid u ≡ true
    → (timespecafter t u ≡ ltb (nanoseconds u) (nanoseconds t))
      × (timespeccmp t u ltb ≡ ltb (nanoseconds t) (nanoseconds u))
unfolding timespecafter timespeccmp timespecisvalid
timespecafter-lt t u ht hu = (ground arith, ground arith)

-- The difference that `timespecsub` leaves for two valid times has tv_nsec from 0 below a billion,
-- and added to the second time it gives the first, in nanoseconds.
pub timespecsub_exact :
    (t u : Timespec)
    → timespecisvalid t ≡ true
    → timespecisvalid u ≡ true
    → let d = timespecsub t u in
      (neg_part d.nsec ≡ 0)
      × (pos_part d.nsec < billion)
      × (pos_part d.sec * billion + pos_part d.nsec + nanoseconds u
          ≡ nanoseconds t + neg_part d.sec * billion)
unfolding timespecsub timespecisvalid
timespecsub_exact t u ht hu = (ground arith, ground arith, ground arith)
