-- ===== src/Tests/Server.antt =====
-- The server at concrete inputs: alice logs in with her password, and then removes a file.
use sftp2s.Prelude.{
  ℕ, true, false, Bytes, codes, bytes_eq, bytes_eq_iff, lookup, put, delete, [], ◌∷◌, none, some,
  ◌≡◌, ◌≢◌, ◌↔◌, refl, subst, inl, inr, In, Bool-cases, trim, arith,
}
use sftp2s.Result.{ok, err, message, not_exist}
use sftp2s.Config.{UserConfig, Config}
use sftp2s.Auth.{Crypto, has_any_password, password_matches}
use sftp2s.Failures.{
  FailureTracker, record_failure, count_failure, prune_attempts, recent, is_blocked, holds,
}
use sftp2s.Fake.Service.{fake_s3}
use sftp2s.Fake.Lawful.{fake_laws}
use sftp2s.Handlers.Commands.{filecmd}
use sftp2s.Limits.{new_user_conn_limiter, acquire}
use sftp2s.Metrics.{new_metrics}
use sftp2s.Storage.{Backend, BackendConfig, new_backend, normal_prefix}
use sftp2s.Storage.Frames.{Beyond}
use sftp2s.Vfs.{prefix_for, new_vfs}
use sftp2s.Server.Users.{find_user, prefixes_of}
use sftp2s.Server.Login.{
  Login, password, SshConfig, any_password, load_user_keys, new_ssh_server_config, authenticate,
  password_callback, callback, check_blocked, note_failure,
}
use sftp2s.Server.Login.Answers.{blocked_at, Fits, password_accepted}
use sftp2s.Server.Login.Accepted.{authenticate_known, hash_refused}
use sftp2s.Server.Login.Lockout.{Attempt, answer, attempts, locked_out}
use sftp2s.Server.Sessions.{
  Parts, State, build_state, session_handlers, Session, System, connect, open_session,
}
use sftp2s.Server.Sessions.Steps.{first, Reach, starts, connects, Sound, reach-Sound}
use sftp2s.Server.Sessions.Confinement.{Outside, chroot, session_confined}
use sftp2s.Tests.Fixtures.{docs_location, world, removal}
use sftp2s.Tests.Config.{plain_server, alice_user}

-- A hash is the text "hash of" and the password.
abbrev pub crypto : Crypto
crypto = record {
  PublicKey = Bytes;
  marshal = λ key. key;
  parse_authorized_key = λ line. ok line;
  compare_hash = λ hash pass. bytes_eq hash (b'#' ∷ pass);
  scan_lines = λ text. (text ∷ [], none);
  read_file = λ path. err not_exist;
}

-- One failure blocks for a hundred units of time.
abbrev strict : FailureTracker
strict = record {
  attempts = [];
  blocked = [];
  max_attempts = 1;
  window = 10;
  block_duration = 100;
  tarpit_delay = 0;
  state_file = [];
  save_interval = 0;
}

abbrev here : Bytes
here = codes "10.0.0.1:5"

abbrev nobody : Login
nobody = record { tracker = some strict; metrics = some new_metrics }

abbrev pub ssh_cfg : SshConfig crypto
ssh_cfg = record {
  users = alice_user ∷ [];
  user_keys = [];
  password_callback_set = true;
  public_key_callback_set = false;
}

ssh_cfg_made : new_ssh_server_config crypto (alice_user ∷ []) ≡ ok ssh_cfg
unfolding new_ssh_server_config load_user_keys has_any_password
ssh_cfg_made = refl

alice_in :
    (authenticate crypto ssh_cfg (codes "alice") here (password (codes "secret")) 5 nobody).0
    ≡ ok tt
unfolding authenticate password_callback callback check_blocked any_password password_matches
    is_blocked lookup holds bytes_eq
alice_in = refl

authenticate_known_example :
    (u : UserConfig) × (find_user (codes "alice") (alice_user ∷ []) ≡ some u)
authenticate_known_example =
    authenticate_known crypto (alice_user ∷ []) ssh_cfg (codes "alice") here
      (password (codes "secret")) 5 nobody ssh_cfg_made alice_in

password_accepted_example :
    ((authenticate crypto ssh_cfg (codes "alice") here (password (codes "secret")) 5 nobody).0
      ≡ ok tt)
    ↔ ((ssh_cfg.password_callback_set ≡ true)
        × (blocked_at here 5 nobody ≡ false)
        × ((u : UserConfig) × In u ssh_cfg.users × Fits crypto (codes "alice") (codes "secret") u))
password_accepted_example =
    password_accepted crypto ssh_cfg (codes "alice") here (codes "secret") 5 nobody

-- A user with a hash alone.
abbrev hashed : UserConfig
hashed = record alice_user { password = []; password_hash = codes "#secret" }

abbrev hashed_cfg : SshConfig crypto
hashed_cfg = record {
  users = hashed ∷ [];
  user_keys = [];
  password_callback_set = false;
  public_key_callback_set = false;
}

hashed_made : new_ssh_server_config crypto (hashed ∷ []) ≡ ok hashed_cfg
unfolding new_ssh_server_config load_user_keys has_any_password
hashed_made = refl

hash_refused_example :
    authenticate crypto hashed_cfg (codes "alice") here (password (codes "secret")) 5 nobody
    ≡ (err (message "no such method"), nobody)
hash_refused_example =
    hash_refused crypto (hashed ∷ []) hashed_cfg (codes "alice") here (codes "secret") 5 nobody
      hashed_made (refl, tt)

blocks : (record_failure here 5 strict).1 ≡ true
unfolding record_failure count_failure prune_attempts recent lookup put delete
blocks = refl

abbrev try : ℕ → Attempt crypto
try now = record {
  user = codes "alice";
  remote = here;
  credential = password (codes "secret");
  time = now;
}

locked_out_example :
    (answer crypto ssh_cfg
      (try 60)
      (attempts crypto ssh_cfg (try 30 ∷ []) (note_failure here 5 nobody))).0
    ≢ ok tt
locked_out_example =
    locked_out crypto ssh_cfg here 5 nobody strict (try 30 ∷ []) (try 60) refl blocks
      (omega arith, tt) (omega arith) refl

-- One backend.
abbrev docs_config : BackendConfig
docs_config = record {
  name = codes "docs";
  endpoint_url = codes "https://s3";
  region = [];
  access_key_id = [];
  secret_access_key = [];
  bucket = codes "docs";
  prefix = [];
  use_path_style = true;
  path_style_legacy = false;
  part_size = 8388608;
  timeout = [];
}

abbrev parts : Parts crypto
parts = record {
  host_key = λ path type. ok tt;
  resolve_ssh_id_keys = λ c. ok c.users;
  parse_duration = λ s. ok 1;
  load_config = λ c. ok tt;
  validate = λ v. ok tt;
  new_failure_tracker = λ c. ok strict;
}

abbrev pub raw : Config
raw = record { server = plain_server; users = alice_user ∷ []; backends = docs_config ∷ [] }

abbrev pub docs : Backend
docs = record {
  name = codes "docs";
  location = docs_location;
  prefix = [];
  part_size = 8388608;
  timeout = 60000000000;
}

abbrev state : State crypto
state = record { cfg = raw; ssh_cfg = ssh_cfg; vfs = (codes "docs", docs) ∷ []; tracker = strict }

built : build_state crypto parts raw ≡ ok state
unfolding build_state new_vfs new_backend normal_prefix put new_ssh_server_config load_user_keys
    has_any_password trim
built = refl

abbrev running : System crypto
running = connect crypto (try 5) none (first crypto state)

abbrev running-Reach : Reach crypto running
running-Reach = connects (try 5) none (first crypto state) (starts parts raw state built)

reach-Sound_example : Sound crypto running
reach-Sound_example = reach-Sound crypto running running-Reach

abbrev alice_session : Session crypto
alice_session = record {
  user = codes "alice";
  state = state;
  handlers = session_handlers crypto state (codes "alice") here none;
}

alice_open : In alice_session running.sessions
unfolding connect open_session authenticate password_callback callback check_blocked any_password
    password_matches is_blocked lookup holds bytes_eq acquire new_user_conn_limiter put
alice_open = inl refl

alice_known : find_user (codes "alice") (alice_user ∷ []) ≡ some alice_user
unfolding find_user bytes_eq
alice_known = refl

abbrev bobs : Bytes
bobs = codes "bob/b.txt"

at_docs :
    Beyond docs_location bobs docs.location
      (chroot (prefix_for (prefixes_of alice_user) (codes "docs")) docs.prefix)
unfolding chroot prefix_for prefixes_of lookup bytes_eq trim
at_docs = inr (λ u. absurd (ground arith))

bobs-Outside : Outside crypto state alice_user docs_location bobs
bobs-Outside j b e may = elim (Bool-cases (bytes_eq (codes "docs") j)) [
  | inl same ↦
      let found : docs ≡ b = unfold lookup in ground (arith, e, same) in
      moved found ((bytes_eq_iff (codes "docs") j).0 same)
  | inr other ↦ absurd (unfold lookup in ground (arith, e, other))
]
  where
    moved :
        docs ≡ b
        → codes "docs" ≡ j
        → Beyond docs_location bobs b.location
            (chroot (prefix_for (prefixes_of alice_user) j) b.prefix)
    moved f g =
        subst
          (λ (c : Backend).
            Beyond docs_location bobs c.location
              (chroot (prefix_for (prefixes_of alice_user) j) c.prefix))
          f
          (subst
            (λ i.
              Beyond docs_location bobs docs.location
                (chroot (prefix_for (prefixes_of alice_user) i) docs.prefix))
            g at_docs)

session_confined_example :
    fake_laws.object
      (filecmd fake_s3 3 alice_session.handlers removal world).1.store
      docs_location
      bobs
    ≡ fake_laws.object world.store docs_location bobs
session_confined_example =
    session_confined crypto fake_s3 fake_laws 3 running alice_session alice_user removal world
      docs_location bobs running-Reach alice_open alice_known bobs-Outside
