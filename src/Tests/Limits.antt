-- ===== src/Tests/Limits.antt =====
-- The limits at concrete inputs.
use sftp2s.Prelude.{
  put, bytes_eq, ℕ, codes, [], ◌∷◌, some, ◌≡◌, refl, Bytes, lookup, ◌+◌, ◌≤◌, List,
}
use sftp2s.Limits.{
  acquire, UserLimits, Limiters, UserRateRegistry, update_rates, limiter, update,
  new_user_conn_limiter, count,
}
use sftp2s.Limits.Connections.{
  step, Event, connects, leaves, run, start, Counted, Sessions, run-Counted,
}
use sftp2s.Limits.Reloads.{reload, reload_bounded}
use sftp2s.Limits.Buckets.{rate_of, bucket, limiter-update_rates}

abbrev alice : Bytes
alice = codes "alice"

abbrev users : List UserLimits
users = record { username = alice; max_connections = 2; rate_limit_bytes_per_sec = 100 } ∷ []

abbrev events : List Event
events = connects alice ∷ connects alice ∷ connects alice ∷ leaves alice ∷ connects alice ∷ []

run-Counted_example : Counted (run (start users) events) alice 2
unfolding new_user_conn_limiter update lookup put bytes_eq
run-Counted_example = run-Counted users events alice 2 refl

-- Three sessions that were open before the limit of two.
abbrev opened : Sessions
opened = run (start []) (connects alice ∷ connects alice ∷ connects alice ∷ [])

reload_bounded_example : (run (reload users opened) events).live alice ≤ 2 + opened.live alice
unfolding update lookup count run put bytes_eq step acquire new_user_conn_limiter
reload_bounded_example = reload_bounded users opened events alice 2 refl refl

-- A limiter that is its rate and its burst.
abbrev rates : Limiters
rates = record {
  Limiter = ℕ × ℕ;
  new_limiter = λ n burst. (n, burst);
  set_limit = λ n l. (n, l.1);
  set_burst = λ burst l. (l.0, burst);
}

abbrev registry : UserRateRegistry (ℕ × ℕ)
registry = record { limits = []; limiters = (alice, (7, 65536)) ∷ [] }

limiter-update_rates_example :
    limiter rates (update_rates rates users registry) alice ≡ some (100, 65536)
unfolding rate_of bucket bytes_eq limiter lookup
limiter-update_rates_example = limiter-update_rates rates users registry alice
