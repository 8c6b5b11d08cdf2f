-- ===== src/Server/Sessions/Built.antt =====
-- The steps of BuildState, where it succeeds.
use sftp2s.Prelude.{◌≡◌, subst}
use sftp2s.Result.{ok, >>=-eq-ok, ok-injective}
use sftp2s.Config.{Config}
use sftp2s.Auth.{Crypto}
use sftp2s.Storage.{new_backend}
use sftp2s.Vfs.{new_vfs}
use sftp2s.Server.Login.{new_ssh_server_config}
use sftp2s.Server.Sessions.{Parts, State, build_state}

module _ (crypto : Crypto) where
  pub record Built (parts : Parts crypto) (raw : Config) (s : State crypto) : Type 0 where
    pub host_key : parts.host_key raw.server.host_key raw.server.host_key_type ≡ ok tt
    pub users : parts.resolve_ssh_id_keys raw ≡ ok s.cfg.users
    pub vfs : new_vfs (new_backend parts.parse_duration parts.load_config) raw.backends ≡ ok s.vfs
    pub validated : parts.validate s.vfs ≡ ok tt
    pub tracker : parts.new_failure_tracker raw.server.auth_failures ≡ ok s.tracker
    pub ssh_cfg : new_ssh_server_config crypto s.cfg.users ≡ ok s.ssh_cfg

  pub build_state-Built :
      (parts : Parts crypto) (raw : Config) (s : State crypto)
      → build_state crypto parts raw ≡ ok s
      → Built parts raw s
  unfolding build_state
  build_state-Built parts raw s h =
      let (_, key, h1) =
        >>=-eq-ok (parts.host_key raw.server.host_key raw.server.host_key_type) _ h in
      let (users, resolved, h2) = >>=-eq-ok (parts.resolve_ssh_id_keys raw) _ h1 in
      let (vfs, made_vfs, h3) = >>=-eq-ok _ _ h2 in
      let (_, valid, h4) = >>=-eq-ok (parts.validate vfs) _ h3 in
      let (tracker, made_tracker, h5) =
        >>=-eq-ok (parts.new_failure_tracker raw.server.auth_failures) _ h4 in
      let (ssh_cfg, made_ssh, h6) = >>=-eq-ok (new_ssh_server_config crypto users) _ h5 in
      subst (Built parts raw) (ok-injective h6) (record {
        host_key = key;
        users = resolved;
        vfs = made_vfs;
        validated = valid;
        tracker = made_tracker;
        ssh_cfg = made_ssh;
      })
