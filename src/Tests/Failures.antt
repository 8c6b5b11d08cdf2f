-- ===== src/Tests/Failures.antt =====
-- The tracker of failed logins at concrete inputs.
use sftp2s.Prelude.{
  ◌+◌, codes, [], ◌∷◌, ◌≡◌, refl, Bytes, true, List, lookup, ltb, arith, bytes_eq, put, delete,
}
use sftp2s.Failures.{FailureTracker, record_failure, is_blocked, recent}
use sftp2s.Failures.Window.{answers, expected, answers_lem}
use sftp2s.Failures.Blocks.{Event, fails, asks, trace, only, record_failure_blocks, trace-only}

abbrev here : Bytes
here = codes "10.0.0.1:5"

abbrev there : Bytes
there = codes "10.0.0.2:6"

-- Two failures within ten units of time block for a hundred.
abbrev tracker : FailureTracker
tracker = record {
  attempts = [];
  blocked = [];
  max_attempts = 2;
  window = 10;
  block_duration = 100;
  tarpit_delay = 0;
  state_file = [];
  save_interval = 0;
}

answers_lem_example :
    answers here tracker (1 ∷ 20 ∷ 25 ∷ 26 ∷ []) ≡ expected 2 10 [] (1 ∷ 20 ∷ 25 ∷ 26 ∷ [])
unfolding lookup
answers_lem_example =
    answers_lem here tracker (1 ∷ 20 ∷ 25 ∷ 26 ∷ []) refl
      (omega arith, (omega arith, (omega arith, (omega arith, tt))))

abbrev events : List Event
events = fails here 1 ∷ fails there 2 ∷ fails here 3 ∷ asks here 4 ∷ asks there 5 ∷ []

trace-only_example : trace here tracker events ≡ trace here tracker (only here events)
trace-only_example = trace-only here tracker events

abbrev once : FailureTracker
once = (record_failure here 1 tracker).0

blocked_now : (record_failure here 3 once).1 ≡ true
unfolding record_failure lookup recent put delete bytes_eq
blocked_now = refl

record_failure_blocks_example :
    (is_blocked here 50 (record_failure here 3 once).0).1 ≡ ltb 50 (3 + once.block_duration)
record_failure_blocks_example = record_failure_blocks here 3 50 once blocked_now
