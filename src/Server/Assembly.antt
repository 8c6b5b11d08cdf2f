-- ===== src/Server/Assembly.antt =====
-- server.go: BuildState with the parts that it calls. The effects on the files are those of the parts and
-- are not followed: each part has a file of its own.
use sftp2s.Prelude.{ℕ, true, Bytes, Dict, ◌≡◌, sym, ap, ◌∙◌}
use sftp2s.Result.{Result, ok, ◌>>=◌}
use sftp2s.Config.{Config}
use sftp2s.Auth.{Crypto}
use sftp2s.Auth.SshId
use sftp2s.Auth.SshId.{Outside, CacheFile}
use sftp2s.Auth.SshId.Keys.{Extended, Pairs, resolve_ssh_id_keys-Extended}
use sftp2s.Failures.StateFile
use sftp2s.Failures.StateFile.{Formats}
use sftp2s.Handlers.{succeeded}
use sftp2s.Health.{validate}
use sftp2s.Health.Checks.{Quiet, all_up, validate-all_up}
use sftp2s.S3.{S3}
use sftp2s.Storage.{BackendConfig}
use sftp2s.Vfs.Regular.{Regular}
use sftp2s.Server.HostKey
use sftp2s.Server.HostKey.{KeyLibrary, load_or_generate_host_key}
use sftp2s.Server.Login.{new_ssh_server_config}
use sftp2s.Server.Sessions.{Parts, State, build_state}
use sftp2s.Server.Sessions.Built.{build_state-Built}
use sftp2s.Server.Sessions.Steps.{build_state-Coherent}

-- What the process finds at a time.
pub record Machine : Type 1 where
  pub keys : KeyLibrary
  pub key_faults : HostKey.Faults
  pub formats : Formats
  pub state_faults : StateFile.Faults
  pub files : Dict Bytes
  pub web : Outside
  pub cache : Dict CacheFile
  pub s3 : S3
  pub store : s3.Store
  pub parse_duration : Bytes → Result ℕ
  pub load_config : BackendConfig → Result (Unit {0})
  pub now : ℕ

module _ (crypto : Crypto) where
  -- The calls of BuildState.
  unfoldable pub parts_of : Machine → Parts crypto
  parts_of m = record {
    host_key = λ path type.
        (load_or_generate_host_key m.keys m.key_faults path type m.files).0 >>= λ key. ok tt;
    resolve_ssh_id_keys = λ cfg. (SshId.resolve_ssh_id_keys m.web m.now cfg m.cache).0;
    parse_duration = m.parse_duration;
    load_config = m.load_config;
    validate = λ vfs. (validate m.s3 vfs m.store).0;
    new_failure_tracker =
        λ cfg. StateFile.new_failure_tracker m.formats m.state_faults m.files m.now cfg;
  }

  -- What a server may rely on when it begins, or goes on behind a reload.
  pub record Ready (m : Machine) (raw : Config) (s : State crypto) : Type 0 where
    pub reachable : all_up m.s3 m.store s.vfs ≡ true
    pub backends : Regular s.vfs
    pub users : Pairs Extended raw.users s.cfg.users
    pub callbacks : new_ssh_server_config crypto s.cfg.users ≡ ok s.ssh_cfg
    pub tracker :
        StateFile.new_failure_tracker m.formats m.state_faults m.files m.now
          raw.server.auth_failures
        ≡ ok s.tracker

  -- With a service that a listing leaves as it is: where BuildState succeeds, the service answers a
  -- listing of every backend, each name has one backend with a prefix in normal form, the users are those
  -- of the configuration with keys of sshid.io appended, the callbacks close over these users, and the
  -- tracker is the one of the state file.
  pub build_state-Ready :
      (m : Machine) (raw : Config) (s : State crypto)
      → Quiet m.s3
      → build_state crypto (parts_of m) raw ≡ ok s
      → Ready m raw s
  unfolding parts_of
  build_state-Ready m raw s quiet h =
      let built = build_state-Built crypto (parts_of m) raw s h in
      record {
        reachable = sym (validate-all_up m.s3 quiet s.vfs m.store) ∙ ap succeeded built.validated;
        backends = (build_state-Coherent crypto (parts_of m) raw s h).regular;
        users = resolve_ssh_id_keys-Extended m.web m.now raw m.cache s.cfg.users built.users;
        callbacks = built.ssh_cfg;
        tracker = built.tracker;
      }
