-- ===== src/Auth.antt =====
-- internal/auth/auth.go and passhash.go: authorized keys and passwords. Reading a password from the
-- terminal is not modelled.
pub mod SshId
use sftp2s.Prelude.{
  Bool, true, false, not, ◌&&◌, ◌||◌, Bytes, bytes_eq, codes, is_empty, has_prefix, trim_space,
  List, [], ◌∷◌, ◌++◌, Option, none, some, if◌then◌else◌,
}
use sftp2s.Result.{Error, Result, ok, err, ◌>>=◌}
use sftp2s.Config.{UserConfig}

-- What this code takes from golang.org/x/crypto, bufio and os.
pub record Crypto : Type 1 where
  pub PublicKey : Type 0
  pub marshal : PublicKey → Bytes
  -- ssh.ParseAuthorizedKey
  pub parse_authorized_key : Bytes → Result PublicKey
  -- whether bcrypt.CompareHashAndPassword returns no error, for a hash and a password
  pub compare_hash : Bytes → Bytes → Bool
  -- the lines that a bufio.Scanner delivers, and the error behind them
  pub scan_lines : Bytes → List Bytes × Option Error
  pub read_file : Bytes → Result Bytes

-- isLiteralKey
unfoldable pub is_literal_key : Bytes → Bool
is_literal_key s =
    let t = trim_space s in
    has_prefix t (codes "ssh-")
    || has_prefix t (codes "ecdsa-sha2-")
    || has_prefix t (codes "sk-")
    || has_prefix t (codes "ssh-ed25519")

-- HasAnyPassword
unfoldable pub has_any_password : List UserConfig → Bool
has_any_password [] = false
has_any_password (u ∷ users) = not (is_empty u.password) || has_any_password users

module _ (crypto : Crypto) where
  open crypto use {PublicKey}

  -- KeysEqual
  unfoldable pub keys_equal : PublicKey → PublicKey → Bool
  keys_equal a b = bytes_eq (crypto.marshal a) (crypto.marshal b)

  -- the loop of parseAuthorizedKeys
  unfoldable pub parse_lines : List Bytes → Result (List PublicKey)
  parse_lines [] = ok []
  parse_lines (raw ∷ lines) =
      let rest = parse_lines lines in
      let line = trim_space raw in
      if is_empty line || has_prefix line (codes "#")
      then rest
      else (crypto.parse_authorized_key line >>= λ pub'. rest >>= λ keys. ok (pub' ∷ keys))

  abbrev or_error : Option Error → List PublicKey → Result (List PublicKey)
  or_error none keys = ok keys
  or_error (some e) keys = err e

  -- parseAuthorizedKeys
  unfoldable pub parse_authorized_keys : Bytes → Result (List PublicKey)
  unfolding parse_lines
  parse_authorized_keys text =
      let scanned = crypto.scan_lines text in parse_lines scanned.0 >>= or_error scanned.1

  -- the keys of one source of LoadAuthorizedKeys
  unfoldable pub load_source : Bytes → Result (List PublicKey)
  unfolding parse_authorized_keys
  load_source src =
      (if is_literal_key src then ok src else crypto.read_file src) >>= parse_authorized_keys

  -- LoadAuthorizedKeys
  unfoldable pub load_authorized_keys : List Bytes → Result (List PublicKey)
  unfolding load_source
  load_authorized_keys [] = ok []
  load_authorized_keys (src ∷ sources) = do
    parsed ← load_source src
    keys ← load_authorized_keys sources
    ok (parsed ++ keys)

  -- PasswordMatches
  unfoldable pub password_matches : UserConfig → Bytes → Bool
  password_matches u pass =
      if not (is_empty u.password_hash)
      then crypto.compare_hash u.password_hash pass
      else (not (is_empty u.password) && bytes_eq u.password pass)
