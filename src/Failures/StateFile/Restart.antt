-- ===== src/Failures/StateFile/Restart.antt =====
-- A restart: the tracker that starts from the file that another one has saved.
use sftp2s.Prelude.{
  ℕ, ◌≤◌, false, Bytes, is_empty, Dict, lookup, Distinct, List, [], ◌∷◌, none, some, ◌≡◌, ◌≢◌, refl,
  sym, ap, ◌∙◌, subst, inl, inr, arith,
}
use sftp2s.Result.{ok, ok-injective, >>=-eq-ok}
use sftp2s.Config.{AuthFailuresConfig}
use sftp2s.Failures.{FailureTracker, attempts_of, or_none, recent, holds}
use sftp2s.Failures.Blocks.{Event, trace}
use sftp2s.Failures.StateFile.Alike.{Alike, Chronological, trace-Alike}
use sftp2s.Failures.StateFile.{
  AuthState, Formats, Faults, configured, parse_duration_default, load_attempts, load_blocked,
  load_state, open_file, load, new_failure_tracker, prune_all, drop_expired, expire, save,
}
use sftp2s.Failures.StateFile.Attempts.{
  recent-valid, prune_all-recent, prune_all-Distinct, prune_all-Settings, load_attempts-lookup,
}
use sftp2s.Failures.StateFile.Ends.{drop_expired-holds, drop_expired-Distinct, load_blocked-holds}
use sftp2s.Failures.StateFile.Atomic.{snapshot, save_atomic}

-- A file that is written can be read: json.MarshalIndent and a Decoder.
abbrev pub RoundTrips : Formats → Type 0
RoundTrips formats =
    (s : AuthState) (data' : Bytes) → formats.encode s ≡ ok data' → formats.decode data' ≡ ok s

-- The settings of a tracker, which stay as NewFailureTracker has made them.
pub record Configured (fresh t : FailureTracker) : Type 0 where
  pub max_attempts : t.max_attempts ≡ fresh.max_attempts
  pub window : t.window ≡ fresh.window
  pub block_duration : t.block_duration ≡ fresh.block_duration
  pub state_file : t.state_file ≡ fresh.state_file

-- A Go map holds each key once.
pub record Maps (t : FailureTracker) : Type 0 where
  pub attempts : Distinct t.attempts
  pub blocked : Distinct t.blocked

configured-empty :
    (formats : Formats) (cfg : AuthFailuresConfig) (fresh : FailureTracker)
    → configured formats cfg ≡ ok fresh
    → (fresh.attempts ≡ []) × (fresh.blocked ≡ [])
unfolding configured
configured-empty formats cfg fresh h =
    let (window, _, h1) = >>=-eq-ok (parse_duration_default formats cfg.window 300000000000) _ h in
    let (block_duration, _, h2) =
      >>=-eq-ok (parse_duration_default formats cfg.block_duration 900000000000) _ h1 in
    let (tarpit_delay, _, h3) =
      >>=-eq-ok (parse_duration_default formats cfg.tarpit_delay 0) _ h2 in
    let (save_interval, _, h4) =
      >>=-eq-ok (parse_duration_default formats cfg.save_interval 60000000000) _ h3 in
    let made = ok-injective h4 in (sym (ap (λ t. t.attempts) made), sym (ap (λ t. t.blocked) made))

-- What load makes of the snapshot of an expired tracker, against that tracker.
module _ (t fresh : FailureTracker) (now later : ℕ) (remote : Bytes) where
  window_kept :
      (time : ℕ)
      → Configured fresh t
      → fresh.attempts ≡ []
      → Maps t
      → now ≤ later
      → later ≤ time
      → recent fresh.window time (
          or_none (
            lookup remote (
              load_attempts fresh.window later
                (prune_all now t.attempts t).attempts
                fresh.attempts)))
        ≡ recent t.window time (attempts_of t remote)
  window_kept time settings empty maps before after =
      let p = prune_all now t.attempts t in
      ap
        (λ m.
          recent fresh.window time
            (or_none (lookup remote (load_attempts fresh.window later p.attempts m))))
        empty
      ∙ (ap (recent fresh.window time) (
            load_attempts-lookup fresh.window later p.attempts [] remote
              (prune_all-Distinct now t.attempts t maps.attempts) (unfold lookup in refl))
          ∙ (recent-valid fresh.window later time (attempts_of p remote) after
              ∙ (ap (λ w. recent w time (attempts_of p remote)) (sym settings.window)
                  ∙ prune_all-recent now time t.attempts t remote (omega (arith, before, after)))))

  block_kept :
      (time : ℕ)
      → fresh.blocked ≡ []
      → Maps t
      → now ≤ later
      → later ≤ time
      → holds time (
          lookup remote (
            load_blocked later
              (drop_expired now
                (prune_all now t.attempts t).blocked
                (prune_all now t.attempts t).blocked)
              fresh.blocked))
        ≡ holds time (lookup remote t.blocked)
  block_kept time empty maps before after =
      let p = prune_all now t.attempts t in
      let kept = prune_all-Settings now t.attempts t in
      let blocks = subst Distinct (sym kept.blocks) maps.blocked in
      ap
        (λ m.
          holds time (lookup remote (load_blocked later (drop_expired now p.blocked p.blocked) m)))
        empty
      ∙ (load_blocked-holds later time (drop_expired now p.blocked p.blocked) [] remote after
            (drop_expired-Distinct now p.blocked p.blocked blocks) (unfold lookup in refl)
          ∙ (drop_expired-holds now time p.blocked p.blocked remote (omega (arith, before, after))
                blocks (λ k u e. unfold holds in rw e refl)
              ∙ ap (λ m. holds time (lookup remote m)) kept.blocks))

  reloaded-Alike :
      Configured fresh t
      → (fresh.attempts ≡ []) × (fresh.blocked ≡ [])
      → Maps t
      → now ≤ later
      → Alike remote later (load_state later (snapshot (expire now t)) fresh) t
  unfolding load_state expire
  reloaded-Alike settings empty maps before = record {
    times = λ n le. window_kept n settings empty.0 maps before le;
    until = λ n le. block_kept n empty.1 maps before le;
    max_attempts = sym settings.max_attempts;
    window = sym settings.window;
    block_duration = sym settings.block_duration;
  }

load-found :
    (formats : Formats) (reading : Faults) (files : Dict Bytes) (now : ℕ) (t : FailureTracker)
    (data' : Bytes) (s : AuthState)
    → reading.open_fault ≡ none
    → lookup t.state_file files ≡ some data'
    → formats.decode data' ≡ ok s
    → (load formats reading files now t).1 ≡ load_state now s t
unfolding load open_file
load-found formats reading files now t data' s readable found decoded =
    ground (arith, readable, found, decoded)

new_failure_tracker-found :
    (formats : Formats) (reading : Faults) (files : Dict Bytes) (now : ℕ) (cfg : AuthFailuresConfig)
    (t u : FailureTracker)
    → configured formats cfg ≡ ok t
    → t.state_file ≢ []
    → (load formats reading files now t).1 ≡ u
    → new_failure_tracker formats reading files now cfg ≡ ok u
unfolding new_failure_tracker
new_failure_tracker-found formats reading files now cfg t u made named loaded =
    rw made (ap ok (rw (unnamed t.state_file named) loaded))
  where
    unnamed : (path : Bytes) → path ≢ [] → is_empty path ≡ false
    unnamed [] h = absurd (h refl)
    unnamed (c ∷ path) h = refl

-- A restart forgets nothing: where a save succeeds, the tracker that NewFailureTracker makes of the same
-- settings and the saved file, at a later time, gives an address the answers that the old tracker would
-- have given, to all failed logins and questions from then on, of this and other addresses, at times
-- that do not go back. The file can be opened, and what is encoded can be decoded.
pub restart :
    (formats : Formats) (faults reading : Faults) (cfg : AuthFailuresConfig)
    (t fresh : FailureTracker) (files : Dict Bytes) (now later : ℕ) (remote : Bytes)
    (events : List Event)
    → RoundTrips formats
    → reading.open_fault ≡ none
    → configured formats cfg ≡ ok fresh
    → Configured fresh t
    → fresh.state_file ≢ []
    → Maps t
    → now ≤ later
    → Chronological later events
    → (save formats faults now t files).0 ≡ ok tt
    → (u : FailureTracker) × (new_failure_tracker formats reading
          (save formats faults now t files).2
          later
          cfg
        ≡ ok u)
      × (trace remote u events ≡ trace remote t events)
restart formats faults reading cfg t fresh files now later remote events trips readable made
      settings named maps before order saved =
    elim (save_atomic formats faults now t files (λ e. named (sym settings.state_file ∙ e))) [
      | inl failed ↦ absurd (failed.0 saved)
      | inr (_, (data', encoded, found)) ↦ (
        load_state later (snapshot (expire now t)) fresh,
        new_failure_tracker-found formats reading _ later cfg fresh _ made named (
            load-found formats reading (save formats faults now t files).2 later fresh data'
              (snapshot (expire now t)) readable
              (subst (λ path. lookup path (save formats faults now t files).2 ≡ some data')
                settings.state_file found)
              (trips (snapshot (expire now t)) data' encoded)),
        trace-Alike events remote later (load_state later (snapshot (expire now t)) fresh) t order (
            reloaded-Alike t fresh now later remote settings
              (configured-empty formats cfg fresh made) maps before),
      )
    ]
