-- ===== src/Server/Sessions/Steps.antt =====
-- The server as a state machine: connections, ends of connections, and reloads, in any order.
use sftp2s.Prelude.{
  ℕ, suc, Bytes, List, [], ◌∷◌, ◌++◌, map, length, Option, some, ◌≡◌, inl, inr, refl, ap, ◌∙◌,
  subst, All, Bool-cases,
}
use sftp2s.Server.Sessions.Built.{build_state-Built}
use sftp2s.Result.{◌>>=◌, Result, ok, err, >>=-eq-ok}
use sftp2s.Config.{UserConfig, Config, Sources, load}
use sftp2s.Auth.{Crypto}
use sftp2s.Limits.{new_user_conn_limiter, acquire}
use sftp2s.Metrics.{Gauge, pos, inc, dec, new_metrics, connection_opened, connection_closed}
use sftp2s.Vfs.Regular.{Regular, new_vfs-Regular}
use sftp2s.Server.Users.{find_user}
use sftp2s.Server.Login.{new_ssh_server_config, authenticate}
use sftp2s.Server.Login.Accepted.{authenticate_known}
use sftp2s.Server.Login.Lockout.{Attempt}
use sftp2s.Server.Sessions.{
  Parts, State, user_limits, build_state, session_handlers, Session, System, login_of, after_login,
  open_session, connect, disconnect, reload, reload_config,
}
use sftp2s.Server.Sessions.Gauge.{authenticate-connections, after_login-connections}

module _ (crypto : Crypto) where
  -- What BuildState makes fits together.
  pub record Coherent (s : State crypto) : Type 0 where
    pub made : new_ssh_server_config crypto s.cfg.users ≡ ok s.ssh_cfg
    pub regular : Regular s.vfs

  pub build_state-Coherent :
      (parts : Parts crypto) (raw : Config) (s : State crypto)
      → build_state crypto parts raw ≡ ok s
      → Coherent s
  build_state-Coherent parts raw s h =
      let built = build_state-Built crypto parts raw s h in
      record {
        made = built.ssh_cfg;
        regular =
            new_vfs-Regular parts.parse_duration parts.load_config raw.backends s.vfs built.vfs;
      }

  -- An open session: its user is configured, and its handlers are those of its user.
  pub record Legit (c : Session crypto) : Type 0 where
    pub coherent : Coherent c.state
    pub entry : UserConfig
    pub known : find_user c.user c.state.cfg.users ≡ some entry
    pub remote : Bytes
    pub rate_limiter : Option ℕ
    pub own : c.handlers ≡ session_handlers crypto c.state c.user remote rate_limiter

  -- The server behind BuildState, before the first connection.
  abbrev pub first : State crypto → System crypto
  first s = record {
    state = s;
    tracker = s.tracker;
    limiter = new_user_conn_limiter (map user_limits s.cfg.users);
    metrics = new_metrics;
    sessions = [];
  }

  pub data Reach : System crypto → Type 0 where
    starts :
        (parts : Parts crypto) (raw : Config) (s : State crypto)
        → build_state crypto parts raw ≡ ok s
        → Reach (first s)
    connects :
        (a : Attempt crypto) (rate_limiter : Option ℕ) (s : System crypto)
        → Reach s
        → Reach (connect crypto a rate_limiter s)
    closes :
        (c : Session crypto) (before after : List (Session crypto)) (s : System crypto)
        → s.sessions ≡ before ++ (c ∷ after)
        → Reach s
        → Reach (disconnect crypto c (before ++ after) s)
    reloads :
        (from : Sources) (parts : Parts crypto) (path : Bytes) (s : System crypto)
        → Reach s
        → Reach (reload_config crypto from parts path s)

  -- The gauge of the open connections is right, and every session is legitimate.
  pub record Sound (s : System crypto) : Type 0 where
    pub gauge : s.metrics.active_conns ≡ pos (length s.sessions)
    pub current : Coherent s.state
    pub sessions : All Legit s.sessions

  inc-pos : (g : Gauge) (n : ℕ) → g ≡ pos n → inc g ≡ pos (suc n)
  unfolding inc
  inc-pos g n h = ap inc h

  dec-pos : (g : Gauge) (n : ℕ) → g ≡ pos (suc n) → dec g ≡ pos n
  unfolding dec
  dec-pos g n h = ap dec h

  All-middle :
      {A : Type 0} (P : A → Type 0) (c : A) (before after : List A)
      → All P (before ++ (c ∷ after))
      → All P (before ++ after)
  All-middle P c [] after h = h.1
  All-middle P c (b ∷ before) after h = (h.0, All-middle P c before after h.1)

  length-middle :
      {A : Type 0} (c : A) (before after : List A)
      → length (before ++ (c ∷ after)) ≡ suc (length (before ++ after))
  length-middle c [] after = refl
  length-middle c (b ∷ before) after = ap suc (length-middle c before after)

  open_session-Sound :
      (user remote : Bytes) (rate_limiter : Option ℕ) (s : System crypto) (u : UserConfig)
      → find_user user s.state.cfg.users ≡ some u
      → Sound s
      → Sound (open_session crypto user remote rate_limiter s)
  unfolding open_session connection_opened
  open_session-Sound user remote rate_limiter s u known h =
      elim (Bool-cases (acquire s.limiter user).1) [
        | inl granted ↦ rw granted (record {
          gauge = inc-pos s.metrics.active_conns (length s.sessions) h.gauge;
          current = h.current;
          sessions = (
            record {
              coherent = h.current;
              entry = u;
              known = known;
              remote = remote;
              rate_limiter = rate_limiter;
              own = refl;
            },
            h.sessions,
          );
        })
        | inr full ↦
            rw full (record { gauge = h.gauge; current = h.current; sessions = h.sessions })
      ]

  connect-Sound :
      (a : Attempt crypto) (rate_limiter : Option ℕ) (s : System crypto)
      → Sound s
      → Sound (connect crypto a rate_limiter s)
  unfolding connect
  connect-Sound a rate_limiter s h =
      let r =
        authenticate crypto s.state.ssh_cfg a.user a.remote a.credential a.time
          (login_of crypto s) in
      let kept = after_login-connections crypto r.1 s (
        authenticate-connections crypto s.state.ssh_cfg a.user a.remote a.credential a.time
          (login_of crypto s)) in
      let later : Sound (after_login crypto r.1 s) = record {
        gauge = kept ∙ h.gauge;
        current = h.current;
        sessions = h.sessions;
      } in
      go r.0 refl later
    where
      go :
          (answer : Result (Unit {0}))
          → (authenticate crypto s.state.ssh_cfg a.user a.remote a.credential a.time
              (login_of crypto s)).0
            ≡ answer
          → Sound (
              after_login crypto
                (authenticate crypto s.state.ssh_cfg a.user a.remote a.credential a.time
                  (login_of crypto s)).1
                s)
          → Sound (elim answer [
            | ok _ ↦ open_session crypto a.user a.remote rate_limiter (
                after_login crypto
                  (authenticate crypto s.state.ssh_cfg a.user a.remote a.credential a.time
                    (login_of crypto s)).1
                  s)
            | err e ↦
                after_login crypto
                  (authenticate crypto s.state.ssh_cfg a.user a.remote a.credential a.time
                    (login_of crypto s)).1
                  s
          ])
      go (ok tt) e later =
          let (u, known) =
            authenticate_known crypto s.state.cfg.users s.state.ssh_cfg a.user a.remote a.credential
              a.time (login_of crypto s) h.current.made e in
          open_session-Sound a.user a.remote rate_limiter _ u known later
      go (err e) _ later = later

  disconnect-Sound :
      (c : Session crypto) (before after : List (Session crypto)) (s : System crypto)
      → s.sessions ≡ before ++ (c ∷ after)
      → Sound s
      → Sound (disconnect crypto c (before ++ after) s)
  unfolding disconnect connection_closed
  disconnect-Sound c before after s e h = record {
    gauge =
        dec-pos s.metrics.active_conns (length (before ++ after))
          (h.gauge ∙ ap pos (ap length e ∙ length-middle c before after));
    current = h.current;
    sessions = All-middle Legit c before after (subst (All Legit) e h.sessions);
  }

  reload_config-Sound :
      (from : Sources) (parts : Parts crypto) (path : Bytes) (s : System crypto)
      → Sound s
      → Sound (reload_config crypto from parts path s)
  unfolding reload_config reload
  reload_config-Sound from parts path s before =
      go (load from path >>= build_state crypto parts) refl
    where
      go :
          (r : Result (State crypto))
          → (load from path >>= build_state crypto parts) ≡ r
          → Sound (elim r [ err e ↦ s | ok new ↦ reload crypto new s ])
      go (err e) h = before
      go (ok new) h =
          let (raw, _, built) = >>=-eq-ok (load from path) (build_state crypto parts) h in
          record {
            gauge = before.gauge;
            current = build_state-Coherent parts raw new built;
            sessions = before.sessions;
          }

  -- Whatever connects, ends and is reloaded, in any order: the gauge of the active connections is the
  -- number of open sessions, and each session belongs to a user that its configuration lists and has
  -- the handlers that this configuration gives to the user, also behind a reload that drops the user.
  pub reach-Sound : (s : System crypto) → Reach s → Sound s
  reach-Sound s (starts parts raw new h) = record {
    gauge = refl;
    current = build_state-Coherent parts raw new h;
    sessions = tt;
  }
  reach-Sound s (connects a rate_limiter t r) = connect-Sound a rate_limiter t (reach-Sound t r)
  reach-Sound s (closes c before after t e r) =
      disconnect-Sound c before after t e (reach-Sound t r)
  reach-Sound s (reloads from parts path t r) =
      reload_config-Sound from parts path t (reach-Sound t r)
