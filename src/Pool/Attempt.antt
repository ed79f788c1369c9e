-- ===== src/Pool/Attempt.antt =====
-- `ConnectionAttempt` of psycopg3/psycopg3/pool/base.py, with times in whole units, as milliseconds.
pub mod Ends
use psycopg.Prelude.{ℕ, ◌+◌, ◌*◌, ◌-◌, Bool, true, false, ◌&&◌, if◌then◌else◌, ◌==◌, leb, ltb}

pub record ConnectionAttempt : Type 0 where
  pub reconnect_timeout : ℕ
  pub delay : ℕ
  pub give_up_at : ℕ

abbrev pub new_attempt : ℕ → ConnectionAttempt
new_attempt timeout = record { reconnect_timeout = timeout; delay = 0; give_up_at = 0 }

-- The first delay, which is random, or the double of the last.
unfoldable pub next_delay : ℕ → ℕ → ConnectionAttempt → ConnectionAttempt
next_delay initial now a =
    if a.delay == 0
    then record a { give_up_at = now + a.reconnect_timeout; delay = initial }
    else record a { delay = a.delay * 2 }

unfoldable pub clip_delay : ℕ → ConnectionAttempt → ConnectionAttempt
clip_delay now a =
    if ltb a.give_up_at (a.delay + now) then record a { delay = a.give_up_at - now } else a

-- `initial` is INITIAL_DELAY with its jitter.
unfoldable pub update_delay : ℕ → ℕ → ConnectionAttempt → ConnectionAttempt
unfolding next_delay clip_delay
update_delay initial now a = clip_delay now (next_delay initial now a)

unfoldable pub time_to_give_up : ℕ → ConnectionAttempt → Bool
time_to_give_up now a = ltb 0 a.give_up_at && leb a.give_up_at now
