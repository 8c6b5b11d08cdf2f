-- ===== src/Failures/StateFile.antt =====
-- internal/auth/authfailures.go: NewFailureTracker, and the state file. The files are a map from paths
-- to contents.
pub mod Attempts
pub mod Ends
pub mod Alike
pub mod Atomic
pub mod Restart
use sftp2s.Prelude.{
  ℕ, ◌+◌, Bool, true, false, Bytes, codes, is_empty, Dict, lookup, put, delete, List, [], ◌∷◌, ◌++◌,
  Option, none, some, ltb, leb, ◌==◌, if◌then◌else◌,
}
use sftp2s.Result.{Error, not_exist, message, Result, ok, err, ◌>>=◌}
use sftp2s.Config.{AuthFailuresConfig}
use sftp2s.Failures.{FailureTracker, prune_attempts, holds}

-- time.Duration in nanoseconds. `negsuc n` is -(n + 1).
pub data Duration : Type 0 where
  pos : ℕ → Duration
  negsuc : ℕ → Duration

unfoldable pub non_negative : Duration → Result ℕ
non_negative (pos n) = ok n
non_negative (negsuc n) = err (message "duration must be non-negative")

-- authState
pub record AuthState : Type 0 where
  pub attempts : Dict (List ℕ)
  pub blocked : Dict ℕ

-- What this code takes from packages time and encoding/json.
pub record Formats : Type 0 where
  pub parse_duration : Bytes → Result Duration
  pub encode : AuthState → Result Bytes
  pub decode : Bytes → Result AuthState

-- What goes wrong with the files: opening one, writing one (with what is in it then), renaming one.
pub record Faults : Type 0 where
  pub open_fault : Option Error
  pub write_fault : Option (Error × Bytes)
  pub rename_fault : Option Error

-- parseDurationDefault
unfoldable pub parse_duration_default : Formats → Bytes → ℕ → Result ℕ
unfolding non_negative
parse_duration_default formats s default =
    if is_empty s then ok default else (formats.parse_duration s >>= non_negative)

-- NewFailureTracker, up to the load
unfoldable pub configured : Formats → AuthFailuresConfig → Result FailureTracker
unfolding parse_duration_default
configured formats cfg = do
  window ← parse_duration_default formats cfg.window 300000000000
  block_duration ← parse_duration_default formats cfg.block_duration 900000000000
  tarpit_delay ← parse_duration_default formats cfg.tarpit_delay 0
  save_interval ← parse_duration_default formats cfg.save_interval 60000000000
  ok (record {
    attempts = [];
    blocked = [];
    max_attempts = if cfg.max_attempts == 0 then 5 else cfg.max_attempts;
    window = window;
    block_duration = block_duration;
    tarpit_delay = tarpit_delay;
    state_file = cfg.state_file;
    save_interval = save_interval;
  })

-- the inner loop of load: now.Sub(when) <= t.window
unfoldable pub valid : ℕ → ℕ → List ℕ → List ℕ
valid window now [] = []
valid window now (when ∷ times) =
    let rest = valid window now times in if leb now (when + window) then when ∷ rest else rest

-- the loops of load
unfoldable pub load_attempts : ℕ → ℕ → Dict (List ℕ) → Dict (List ℕ) → Dict (List ℕ)
unfolding valid
load_attempts window now [] attempts = attempts
load_attempts window now ((remote, times) ∷ saved) attempts =
    let kept = valid window now times in
    load_attempts window now saved (if is_empty kept then attempts else put remote kept attempts)

unfoldable pub load_blocked : ℕ → Dict ℕ → Dict ℕ → Dict ℕ
load_blocked now [] blocked = blocked
load_blocked now ((remote, until) ∷ saved) blocked =
    load_blocked now saved (if ltb now until then put remote until blocked else blocked)

unfoldable pub load_state : ℕ → AuthState → FailureTracker → FailureTracker
unfolding load_attempts load_blocked
load_state now s t = record t {
  attempts = load_attempts t.window now s.attempts t.attempts;
  blocked = load_blocked now s.blocked t.blocked;
}

-- os.Open, and reading what is open
unfoldable pub open_file : Option Error → Dict Bytes → Bytes → Result Bytes
open_file (some e) files path = err e
open_file none files path = elim (lookup path files) [
  | none ↦ err not_exist
  | some data' ↦ ok data'
]

-- os.IsNotExist
abbrev pub unless_missing : Error → Result (Unit {0})
unless_missing not_exist = ok tt
unless_missing e = err e

-- the loops of save
unfoldable pub prune_all : ℕ → Dict (List ℕ) → FailureTracker → FailureTracker
prune_all now [] t = t
prune_all now ((remote, times) ∷ rest) t = prune_all now rest (prune_attempts remote now t)

unfoldable pub drop_expired : ℕ → Dict ℕ → Dict ℕ → Dict ℕ
drop_expired now [] blocked = blocked
drop_expired now ((remote, until) ∷ rest) blocked =
    drop_expired now rest (if ltb now until then blocked else delete remote blocked)

unfoldable pub expire : ℕ → FailureTracker → FailureTracker
unfolding prune_all drop_expired
expire now t =
    let p = prune_all now t.attempts t in
    record p { blocked = drop_expired now p.blocked p.blocked }

module _ (formats : Formats) (faults : Faults) where
  -- load
  unfoldable pub load : Dict Bytes → ℕ → FailureTracker → Result (Unit {0}) × FailureTracker
  unfolding open_file load_state
  load files now t = elim (open_file faults.open_fault files t.state_file) [
    | err e ↦ (unless_missing e, t)
    | ok data' ↦ elim (formats.decode data') [
      | err e ↦ (err e, t)
      | ok s ↦ (ok tt, load_state now s t)
    ]
  ]

  -- NewFailureTracker
  unfoldable pub new_failure_tracker : Dict Bytes → ℕ → AuthFailuresConfig → Result FailureTracker
  unfolding configured load
  new_failure_tracker files now cfg = do
    t ← configured formats cfg
    ok (if is_empty t.state_file then t else (load files now t).1)

  -- os.WriteFile to a file beside the state file, and os.Rename of it
  unfoldable pub replace_file : Bytes → Bytes → Dict Bytes → Result (Unit {0}) × Dict Bytes
  replace_file path data' files =
      let tmp = path ++ codes ".tmp" in
      elim faults.write_fault [
        | some (e, written) ↦ (err e, put tmp written files)
        | none ↦ elim faults.rename_fault [
          | some e ↦ (err e, put tmp data' files)
          | none ↦ (ok tt, put path data' (delete tmp files))
        ]
      ]

  -- save
  unfoldable pub save :
      ℕ → FailureTracker → Dict Bytes → Result (Unit {0}) × FailureTracker × Dict Bytes
  unfolding expire replace_file
  save now t files =
      if is_empty t.state_file
      then (ok tt, t, files)
      else let kept = expire now t in
        elim (formats.encode (record { attempts = kept.attempts; blocked = kept.blocked })) [
          | err e ↦ (err e, kept, files)
          | ok data' ↦ let r = replace_file t.state_file data' files in (r.0, kept, r.1)
        ]
