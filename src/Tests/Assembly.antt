-- ===== src/Tests/Assembly.antt =====
-- BuildState with all its parts, at a concrete input.
use sftp2s.Prelude.{codes, bytes_eq, lookup, put, trim, [], ◌∷◌, ◌≡◌, refl}
use sftp2s.Result.{ok}
use sftp2s.Config.{Config}
use sftp2s.Tests.Config.{plain_server}
use sftp2s.Auth.{has_any_password}
use sftp2s.Auth.SshId.{resolve_ssh_id_keys, resolve_users}
use sftp2s.Failures.{FailureTracker}
use sftp2s.Failures.StateFile.{new_failure_tracker, configured}
use sftp2s.Fake.Service.{fake_s3}
use sftp2s.Health.{validate}
use sftp2s.Storage.{new_backend, normal_prefix}
use sftp2s.Vfs.{new_vfs}
use sftp2s.Server.HostKey.{load_or_generate_host_key, generate_host_key, generate_with, keep_key}
use sftp2s.Server.Login.{new_ssh_server_config, load_user_keys}
use sftp2s.Server.Sessions.{State, build_state}
use sftp2s.Server.Assembly.{Machine, parts_of, Ready, build_state-Ready}
use sftp2s.Tests.Fixtures.{fakes}
use sftp2s.Tests.Restarts.{formats, no_faults, online, library, whole}
use sftp2s.Tests.Health.{fake-Quiet}
use sftp2s.Tests.Server.{crypto, ssh_cfg, raw, docs}

abbrev config : Config
config = record raw {
  server = record plain_server { host_key = codes "k"; host_key_type = codes "ed25519" };
}

abbrev machine : Machine
machine = record {
  keys = library;
  key_faults = whole;
  formats = formats;
  state_faults = no_faults;
  files = [];
  web = online;
  cache = [];
  s3 = fake_s3;
  store = fakes;
  parse_duration = λ s. ok 1;
  load_config = λ c. ok tt;
  now = 5;
}

abbrev defaults : FailureTracker
defaults = record {
  attempts = [];
  blocked = [];
  max_attempts = 5;
  window = 300000000000;
  block_duration = 900000000000;
  tarpit_delay = 0;
  state_file = [];
  save_interval = 60000000000;
}

abbrev state : State crypto
state = record {
  cfg = config;
  ssh_cfg = ssh_cfg;
  vfs = (codes "docs", docs) ∷ [];
  tracker = defaults;
}

built : build_state crypto (parts_of crypto machine) config ≡ ok state
unfolding build_state parts_of load_or_generate_host_key lookup generate_host_key generate_with
    keep_key bytes_eq resolve_ssh_id_keys resolve_users new_vfs new_backend normal_prefix put trim
    validate new_failure_tracker configured new_ssh_server_config load_user_keys has_any_password
built = refl

build_state-Ready_example : Ready crypto machine config state
build_state-Ready_example = build_state-Ready crypto machine config state fake-Quiet built
