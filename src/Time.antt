-- ===== src/Time.antt =====
-- Instants and durations of `chrono`, as the data model and the storage use them: an instant is the
-- number of microseconds since the epoch, and a duration a number of microseconds. No instant that
-- the code compares lies before the epoch but the bound of a grant's maximal age, an integer.
use turnkey_triumph_326606_m.Prelude.{ℕ, ◌*◌}

abbrev pub Timestamp : Type 0
Timestamp = ℕ

abbrev pub seconds : ℕ → ℕ
seconds n = 1000000 * n

abbrev pub minutes : ℕ → ℕ
minutes n = 60000000 * n

abbrev pub hours : ℕ → ℕ
hours n = 3600000000 * n
