-- ===== src/Tests/Restarts.antt =====
-- The files that outlive the server, at concrete inputs: the failed logins, the cached keys, the host key.
use sftp2s.Prelude.{
  ℕ, zero, suc, put, delete, true, Bytes, codes, bytes_eq, has_prefix, trim_space, split, join,
  lookup, Dict, List, [], ◌∷◌, none, some, ◌≡◌, ◌≢◌, ◌⊎◌, refl, subst, arith,
}
use sftp2s.Result.{Result, ok, err, not_exist, failed, ok-injective}
use sftp2s.Config.{AuthFailuresConfig, UserConfig, SshIdConfig, Config}
use sftp2s.Auth.{is_literal_key}
use sftp2s.Auth.SshId.{
  Outside, Resolver, filter_keys, filter_lines, keeps, fetch, read_response, read_cache, cache_path,
  resolve_remote, resolve_name, resolve, resolve_users, resolve_ssh_id_keys, new_ssh_id_resolver,
}
use sftp2s.Auth.SshId.FileName.{safe_file_name}
use sftp2s.Auth.SshId.Keys.{Extended, Pairs, resolve_ssh_id_keys-Extended}
use sftp2s.Auth.SshId.Outage.{resolve_outage}
use sftp2s.Failures.{FailureTracker, record_failure, prune_attempts, count_failure, is_blocked}
use sftp2s.Failures.StateFile
use sftp2s.Failures.StateFile.{
  AuthState, Formats, Duration, pos, configured, expire, prune_all, drop_expired, replace_file,
  save, new_failure_tracker,
}
use sftp2s.Failures.StateFile.Atomic.{snapshot, save_atomic}
use sftp2s.Failures.StateFile.Restart.{RoundTrips, restart}
use sftp2s.Failures.StateFile.Alike.{Chronological}
use sftp2s.Failures.Blocks.{Event, fails, asks, trace, step}
use sftp2s.Path.{clean}
use sftp2s.Server.HostKey
use sftp2s.Server.HostKey.{
  KeyLibrary, HostKey, load_or_generate_host_key, generate_host_key, generate_with, keep_key,
}
use sftp2s.Server.HostKey.Lasting.{EdKeys, host_key_lasts}
use sftp2s.Tests.Config.{no_failures, plain_server, alice_user}

abbrev here : Bytes
here = codes "10.0.0.1:5"

-- A format for one block, or for two failures of one address.
abbrev encode_state : Dict (List ℕ) → Dict ℕ → Result Bytes
encode_state [] ((remote, until) ∷ []) = ok (0 ∷ until ∷ remote)
encode_state [] [] = err (failed 1)
encode_state [] (b ∷ c ∷ blocked) = err (failed 1)
encode_state ((remote, one ∷ two ∷ []) ∷ []) [] = ok (1 ∷ one ∷ two ∷ remote)
encode_state ((remote, []) ∷ []) [] = err (failed 1)
encode_state ((remote, one ∷ []) ∷ []) [] = err (failed 1)
encode_state ((remote, one ∷ two ∷ three ∷ times) ∷ []) [] = err (failed 1)
encode_state (a ∷ []) (b ∷ blocked) = err (failed 1)
encode_state (a ∷ b ∷ attempts) blocked = err (failed 1)

abbrev decode_state : Bytes → Result AuthState
decode_state (zero ∷ until ∷ remote) = ok (record { attempts = []; blocked = (remote, until) ∷ [] })
decode_state (suc n ∷ one ∷ two ∷ remote) =
    ok (record { attempts = (remote, one ∷ two ∷ []) ∷ []; blocked = [] })
decode_state [] = err (failed 2)
decode_state (zero ∷ []) = err (failed 2)
decode_state (suc n ∷ []) = err (failed 2)
decode_state (suc n ∷ one ∷ []) = err (failed 2)

abbrev pub formats : Formats
formats = record {
  parse_duration = λ s. ok (pos 10);
  encode = λ s. encode_state s.attempts s.blocked;
  decode = decode_state;
}

decode-encode :
    (attempts : Dict (List ℕ)) (blocked : Dict ℕ) (text : Bytes)
    → encode_state attempts blocked ≡ ok text
    → decode_state text ≡ ok (record { attempts = attempts; blocked = blocked })
decode-encode [] ((remote, until) ∷ []) text h =
    subst (λ t. decode_state t ≡ ok (record { attempts = []; blocked = (remote, until) ∷ [] }))
      (ok-injective h) refl
decode-encode ((remote, one ∷ two ∷ []) ∷ []) [] text h =
    subst
      (λ t. decode_state t ≡ ok (record { attempts = (remote, one ∷ two ∷ []) ∷ []; blocked = [] }))
      (ok-injective h) refl
decode-encode [] [] text h = absurd (ground (arith, h))
decode-encode [] (b ∷ c ∷ blocked) text h = absurd (ground (arith, h))
decode-encode ((remote, []) ∷ []) [] text h = absurd (ground (arith, h))
decode-encode ((remote, one ∷ []) ∷ []) [] text h = absurd (ground (arith, h))
decode-encode ((remote, one ∷ two ∷ three ∷ times) ∷ []) [] text h = absurd (ground (arith, h))
decode-encode (a ∷ []) (b ∷ blocked) text h = absurd (ground (arith, h))
decode-encode (a ∷ b ∷ attempts) blocked text h = absurd (ground (arith, h))

formats-RoundTrips : RoundTrips formats
formats-RoundTrips s text h = decode-encode s.attempts s.blocked text h

abbrev pub no_faults : StateFile.Faults
no_faults = record { open_fault = none; write_fault = none; rename_fault = none }

abbrev cfg : AuthFailuresConfig
cfg = record no_failures { max_attempts = 3; window = codes "10ns"; state_file = codes "state" }

abbrev fresh : FailureTracker
fresh = record {
  attempts = [];
  blocked = [];
  max_attempts = 3;
  window = 10;
  block_duration = 900000000000;
  tarpit_delay = 0;
  state_file = codes "state";
  save_interval = 60000000000;
}

abbrev blocking : FailureTracker
blocking = record fresh { blocked = (here, 900) ∷ [] }

-- Two failures of three.
abbrev failing : FailureTracker
failing = record fresh { attempts = (here, 16 ∷ 18 ∷ []) ∷ [] }

made : configured formats cfg ≡ ok fresh
unfolding configured
made = refl

saved : (save formats no_faults 20 failing []).0 ≡ ok tt
unfolding save expire prune_all drop_expired replace_file prune_attempts lookup put bytes_eq
saved = refl

abbrev later_events : List Event
later_events = fails (codes "10.0.0.2:6") 24 ∷ fails here 25 ∷ asks here 1000 ∷ []

-- The third failure blocks, and the block holds.
restart_example :
    (u : FailureTracker) × (new_failure_tracker formats no_faults
        (save formats no_faults 20 failing []).2
        23
        cfg
      ≡ ok u)
    × (trace here u later_events ≡ true ∷ true ∷ [])
unfolding trace step record_failure prune_attempts count_failure is_blocked lookup put bytes_eq
    delete
restart_example =
    restart formats no_faults no_faults cfg failing fresh [] 20 23 here later_events
      formats-RoundTrips refl made
      (record { max_attempts = refl; window = refl; block_duration = refl; state_file = refl })
      (λ e. absurd (ground arith)) (record { attempts = (unfold lookup in refl, tt); blocked = tt })
      (omega arith) (unfold Chronological in (omega arith, (omega arith, (omega arith, tt)))) saved

save_atomic_example :
    (((save formats no_faults 20 blocking []).0 ≢ ok tt)
      × (lookup (codes "state") (save formats no_faults 20 blocking []).2
          ≡ lookup (codes "state") []))
    ⊎ (((save formats no_faults 20 blocking []).0 ≡ ok tt)
        × ((text : Bytes) × (formats.encode (snapshot (expire 20 blocking)) ≡ ok text)
            × (lookup (codes "state") (save formats no_faults 20 blocking []).2 ≡ some text)))
save_atomic_example = save_atomic formats no_faults 20 blocking [] (λ e. absurd (ground arith))

-- A user of sshid.io, and its answer.
abbrev ssh_id : SshIdConfig
ssh_id = record { username = codes "a"; algorithms = []; cache_dir = [] }

abbrev pub online : Outside
online = record {
  get = λ url. ok (record { status = 200; body = ok (codes "ssh-ed25519 K") });
  stat_fault = none;
  read_fault = none;
  mkdir_fault = none;
  write_fault = none;
  rename_fault = none;
}

abbrev offline : Outside
offline = record online { get = λ url. err not_exist }

abbrev resolver : Resolver
resolver = record { cache_dir = codes "/c"; ttl = 10 }

abbrev raw : Config
raw = record {
  server = plain_server;
  users = record alice_user { ssh_id = some ssh_id } ∷ [];
  backends = [];
}

abbrev keyed : List UserConfig
keyed =
    record alice_user { ssh_id = some ssh_id; authorized_keys = codes "ssh-ed25519 K" ∷ [] } ∷ []

keys_resolved : (resolve_ssh_id_keys online 5 raw []).0 ≡ ok keyed
unfolding resolve_ssh_id_keys new_ssh_id_resolver resolve_users resolve resolve_name cache_path
    resolve_remote fetch read_response filter_keys filter_lines keeps is_literal_key has_prefix
    trim_space split
keys_resolved = refl

resolve_ssh_id_keys-Extended_example : Pairs Extended raw.users keyed
resolve_ssh_id_keys-Extended_example =
    resolve_ssh_id_keys-Extended online 5 raw [] keyed keys_resolved

served : (resolve_name online resolver ssh_id 5 []).0 ≡ ok (codes "ssh-ed25519 K" ∷ [])
unfolding resolve_name read_cache lookup resolve_remote fetch read_response filter_keys filter_lines
    keeps is_literal_key has_prefix trim_space split cache_path
served = ground arith

path_set : cache_path resolver (codes "a") ≢ []
unfolding cache_path safe_file_name clean split join
path_set e = absurd (ground (arith, e))

resolve_outage_example :
    (resolve_name offline resolver ssh_id 5000 (resolve_name online resolver ssh_id 5 []).1).0
    ≡ ok (codes "ssh-ed25519 K" ∷ [])
unfolding fetch
resolve_outage_example =
    resolve_outage online offline resolver ssh_id 5 5000 [] (codes "ssh-ed25519 K" ∷ []) not_exist
      (record { mkdir = refl; write = refl; rename = refl }) path_set served refl refl

-- Keys that are their own files.
abbrev pub library : KeyLibrary
library = record {
  Signer = Bytes;
  key_type = λ s. codes "ssh-ed25519";
  takes_algorithm = λ s. true;
  sign = λ s text algorithm. ok text;
  parse_private_key = λ pem. ok pem;
  generate_rsa = ok (codes "R");
  generate_ed25519 = ok (codes "E");
}

library-EdKeys : EdKeys library
unfolding bytes_eq
library-EdKeys pem s e f = refl

abbrev pub whole : HostKey.Faults
whole = record { read_fault = none; write_fault = none }

first_key :
    (load_or_generate_host_key library whole (codes "k") (codes "ed25519") []).0
    ≡ ok (HostKey.plain (codes "E"))
unfolding load_or_generate_host_key lookup generate_host_key generate_with keep_key bytes_eq
first_key = refl

host_key_lasts_example :
    (load_or_generate_host_key library whole
      (codes "k")
      (codes "rsa")
      (load_or_generate_host_key library whole (codes "k") (codes "ed25519") []).1).0
    ≡ ok (HostKey.plain (codes "E"))
host_key_lasts_example =
    host_key_lasts library whole whole (codes "k") (codes "ed25519") (codes "rsa") []
      (HostKey.plain (codes "E")) library-EdKeys refl first_key
