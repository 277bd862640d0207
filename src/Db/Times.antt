-- ===== src/Db/Times.antt =====
-- The times of the database. A timestamptz holds whole microseconds, and the driver drops the
-- nanoseconds below, of a value that is written and of one that is compared.
use my_kb.Prelude.{ℕ, ◌-◌, ◌%◌, ◌≤◌, ◌≡◌, Option, none, some, arith}

unfoldable pub column_time : ℕ → ℕ
column_time t = t - t % 1000

unfoldable pub column_times : Option ℕ → Option ℕ
unfolding column_time
column_times none = none
column_times (some t) = some (column_time t)

pub column_time_le : (t : ℕ) → column_time t ≤ t
unfolding column_time
column_time_le t = omega arith

pub column_time_mono : (s t : ℕ) → s ≤ t → column_time s ≤ column_time t
unfolding column_time
column_time_mono s t h = omega arith

pub column_time_past : (t : ℕ) → 1000 ≤ t → 1 ≤ column_time t
unfolding column_time
column_time_past t h = omega arith

-- What was stored is read back as it is.
pub column_time_again : (t : ℕ) → column_time (column_time t) ≡ column_time t
unfolding column_time
column_time_again t = omega arith
