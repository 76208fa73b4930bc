-- ===== src/Device/Tests.antt =====
-- A machine that is nothing but its clock, and the theorem on polling at it.
use pcilibs_rs.Prelude.{ℕ, ◌+◌, Bool, leb, arith}
use pcilibs_rs.Device.{Machine}
use pcilibs_rs.Device.Poll.{IsClock, IsPolled, poll, milliseconds, poll-IsPolled}

abbrev clock : Machine ℕ
clock = record {
  read32 = λ offset s. (0, s);
  write32 = λ offset value s. s;
  now = λ s. s;
  sleep = λ d s. s + d;
}

abbrev third_millisecond : ℕ → Bool × ℕ
third_millisecond s = (leb (milliseconds 3) s, s)

clock-IsClock : IsClock clock third_millisecond
clock-IsClock = record { sleeps = λ d s. omega arith; checks = λ s. omega arith }

poll-IsPolled_example :
    IsPolled clock 0 (milliseconds 5) third_millisecond (poll clock 5 third_millisecond 0)
poll-IsPolled_example = poll-IsPolled clock 5 third_millisecond 0 clock-IsClock
