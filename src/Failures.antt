-- ===== src/Failures.antt =====
-- internal/auth/authfailures.go: the failed logins of a remote address. A time is a number of
-- nanoseconds; `when.After(now.Add(-window))` is now < when + window.
pub mod Window
pub mod Blocks
pub mod StateFile
use sftp2s.Prelude.{
  ℕ, ◌+◌, Bool, true, false, Bytes, bytes_eq, Dict, lookup, put, delete, List, [], ◌∷◌, ◌++◌,
  Option, none, some, ltb, leb, is_empty, length, if◌then◌else◌, ◌==◌,
}
use sftp2s.Result.{Result, ok, err, message}

-- FailureTracker
pub record FailureTracker : Type 0 where
  pub attempts : Dict (List ℕ)
  pub blocked : Dict ℕ
  pub max_attempts : ℕ
  pub window : ℕ
  pub block_duration : ℕ
  pub tarpit_delay : ℕ
  pub state_file : Bytes
  pub save_interval : ℕ

-- t.attempts[remote], which is nil where there is no entry
abbrev pub or_none : Option (List ℕ) → List ℕ
or_none none = []
or_none (some times) = times

abbrev pub attempts_of : FailureTracker → Bytes → List ℕ
attempts_of t remote = or_none (lookup remote t.attempts)

-- the loop of pruneAttemptsLocked
unfoldable pub recent : ℕ → ℕ → List ℕ → List ℕ
recent window now [] = []
recent window now (when ∷ times) =
    let rest = recent window now times in if ltb now (when + window) then when ∷ rest else rest

-- FailureTracker.pruneAttemptsLocked
unfoldable pub prune_attempts : Bytes → ℕ → FailureTracker → FailureTracker
unfolding recent
prune_attempts remote now t =
    let kept = recent t.window now (attempts_of t remote) in
    record t {
      attempts = if is_empty kept then delete remote t.attempts else put remote kept t.attempts;
    }

-- Record, behind the pruning
unfoldable pub count_failure : Bytes → ℕ → FailureTracker → FailureTracker × Bool
count_failure remote now t =
    let times = attempts_of t remote ++ now ∷ [] in
    if leb t.max_attempts (length times)
    then (
      record t {
        attempts = delete remote (put remote times t.attempts);
        blocked = put remote (now + t.block_duration) t.blocked;
      },
      true,
    )
    else (record t { attempts = put remote times t.attempts }, false)

-- FailureTracker.Record
unfoldable pub record_failure : Bytes → ℕ → FailureTracker → FailureTracker × Bool
unfolding count_failure prune_attempts
record_failure remote now t = count_failure remote now (prune_attempts remote now t)

-- now.Before(until), where there is an entry
unfoldable pub holds : ℕ → Option ℕ → Bool
holds now none = false
holds now (some until) = ltb now until

-- FailureTracker.IsBlocked
unfoldable pub is_blocked : Bytes → ℕ → FailureTracker → FailureTracker × Bool
unfolding holds
is_blocked remote now t =
    if holds now (lookup remote t.blocked)
    then (t, true)
    else (record t { blocked = delete remote t.blocked }, false)
