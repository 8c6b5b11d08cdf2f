-- ===== src/Server/Sessions.antt =====
-- server.go: BuildState, the sessions that handleConn serves, and the reload of main.go. A handshake
-- and a login are one step; main.go passes a limiter, a registry and metrics that are not nil.
pub mod Built
pub mod Gauge
pub mod Steps
pub mod Confinement
use sftp2s.Prelude.{
  ℕ, Bool, true, false, Bytes, List, [], ◌∷◌, Option, none, some, map, if◌then◌else◌,
}
use sftp2s.Result.{Result, ok, err, ◌>>=◌}
use sftp2s.Config.{UserConfig, Config, AuthFailuresConfig, Sources, load}
use sftp2s.Auth.{Crypto}
use sftp2s.Failures.{FailureTracker}
use sftp2s.Handlers.{Handlers}
use sftp2s.Limits.{UserLimits, UserConnLimiter, acquire, release, update}
use sftp2s.Metrics.{Metrics, connection_opened, connection_closed}
use sftp2s.Storage.{BackendConfig, new_backend}
use sftp2s.Vfs.{Vfs, new_vfs, filter, with_backend_prefixes}
use sftp2s.Server.Users.{
  user_allowed_backends, user_backend_prefixes, get_user_permissions, effective_max_file_size,
  effective_max_read_size,
}
use sftp2s.Server.Login.{Login, SshConfig, Credential, new_ssh_server_config, authenticate}
use sftp2s.Server.Login.Lockout.{Attempt}

-- What BuildState takes from other parts and from outside.
pub record Parts (crypto : Crypto) : Type 0 where
  -- loadOrGenerateHostKey: whether there is a key
  pub host_key : Bytes → Bytes → Result (Unit {0})
  -- auth.ResolveSSHIDKeys: the users with the fetched keys
  pub resolve_ssh_id_keys : Config → Result (List UserConfig)
  -- time.ParseDuration, and whether the SDK accepts the configuration
  pub parse_duration : Bytes → Result ℕ
  pub load_config : BackendConfig → Result (Unit {0})
  -- VFS.Validate
  pub validate : Vfs → Result (Unit {0})
  pub new_failure_tracker : AuthFailuresConfig → Result FailureTracker

-- State
pub record State (crypto : Crypto) : Type 0 where
  pub cfg : Config
  pub ssh_cfg : SshConfig crypto
  pub vfs : Vfs
  pub tracker : FailureTracker

-- The fields of a user that limit it.
abbrev pub user_limits : UserConfig → UserLimits
user_limits u = record {
  username = u.username;
  max_connections = u.max_connections;
  rate_limit_bytes_per_sec = u.rate_limit_bytes_per_sec;
}

module _ (crypto : Crypto) where
  -- BuildState
  unfoldable pub build_state : Parts crypto → Config → Result (State crypto)
  build_state parts raw = do
    _ ← parts.host_key raw.server.host_key raw.server.host_key_type
    users ← parts.resolve_ssh_id_keys raw
    vfs ← new_vfs (new_backend parts.parse_duration parts.load_config) raw.backends
    _ ← parts.validate vfs
    tracker ← parts.new_failure_tracker raw.server.auth_failures
    ssh_cfg ← new_ssh_server_config crypto users
    ok (record {
      cfg = record { server = raw.server; users = users; backends = raw.backends };
      ssh_cfg = ssh_cfg;
      vfs = vfs;
      tracker = tracker;
    })

  -- The handlers that handleConn makes for a user; `rate_limiter` is the limiter of the registry.
  unfoldable pub session_handlers : State crypto → Bytes → Bytes → Option ℕ → Handlers
  session_handlers s user remote rate_limiter = record {
    vfs =
        with_backend_prefixes (filter s.vfs (user_allowed_backends s.cfg user))
          (user_backend_prefixes s.cfg user);
    user = user;
    remote = remote;
    perms = get_user_permissions s.cfg user;
    rate_limiter = rate_limiter;
    max_file_size = effective_max_file_size s.cfg user;
    max_read_size = effective_max_read_size s.cfg user;
    cache_dir = s.cfg.server.cache_dir;
    metered = true;
  }

  -- A connection that is logged in: the state that it was accepted under stays with it.
  pub record Session : Type 0 where
    pub user : Bytes
    pub state : State crypto
    pub handlers : Handlers

  -- The server: currentState, the limiter, the metrics, and the open connections. `tracker` is that of
  -- the current state.
  pub record System : Type 0 where
    pub state : State crypto
    pub tracker : FailureTracker
    pub limiter : UserConnLimiter
    pub metrics : Metrics
    pub sessions : List Session

  abbrev pub login_of : System → Login
  login_of s = record { tracker = some s.tracker; metrics = some s.metrics }

  abbrev or_same {ℓ} : {A : Type ℓ} → Option A → A → A
  or_same none a = a
  or_same (some b) a = b

  abbrev pub after_login : Login → System → System
  after_login l s = record s {
    tracker = or_same l.tracker s.tracker;
    metrics = or_same l.metrics s.metrics;
  }

  -- handleConn behind the handshake, up to the channels
  unfoldable pub open_session : Bytes → Bytes → Option ℕ → System → System
  unfolding session_handlers
  open_session user remote rate_limiter s =
      let (limiter, granted) = acquire s.limiter user in
      if granted
      then record s {
        limiter = limiter;
        metrics = connection_opened s.metrics;
        sessions =
            record {
              user = user;
              state = s.state;
              handlers = session_handlers s.state user remote rate_limiter;
            }
            ∷ s.sessions;
      }
      else record s { limiter = limiter }

  -- handleConn for a connection and what its client shows
  unfoldable pub connect : Attempt crypto → Option ℕ → System → System
  unfolding open_session
  connect a rate_limiter s =
      let (answer, l) =
        authenticate crypto s.state.ssh_cfg a.user a.remote a.credential a.time (login_of s) in
      elim answer [
        | ok _ ↦ open_session a.user a.remote rate_limiter (after_login l s)
        | err e ↦ after_login l s
      ]

  -- the deferred calls of handleConn, when a connection ends; `sessions` are the others
  unfoldable pub disconnect : Session → List Session → System → System
  disconnect c sessions s = record s {
    limiter = release s.limiter c.user;
    metrics = connection_closed s.metrics;
    sessions = sessions;
  }

  -- the reload of main.go, where BuildState has made a state
  unfoldable pub reload : State crypto → System → System
  reload new s = record s {
    state = new;
    tracker = new.tracker;
    limiter = update (map user_limits new.cfg.users) s.limiter;
  }

  -- the reload of main.go on SIGHUP: an error leaves everything as it is
  unfoldable pub reload_config : Sources → Parts crypto → Bytes → System → System
  unfolding reload
  reload_config from parts path s = elim (load from path >>= build_state parts) [
    | err e ↦ s
    | ok new ↦ reload new s
  ]
