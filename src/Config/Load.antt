-- ===== src/Config/Load.antt =====
-- What Load accepts, and what it returns.
use sftp2s.Prelude.{
  ℕ, Bool, true, false, not, ◌&&◌, ◌||◌, Bytes, bytes_eq, bytes_eq_iff, codes, is_empty, Option,
  some, none, is_empty→nil, List, [], ◌∷◌, ◌≡◌, ◌≢◌, ◌⊎◌, ◌↔◌, String, inl, inr, refl, sym, ap, ◌∙◌,
  All, arith,
}
use sftp2s.Result.{Result, ok, err, ◌>>=◌, >>=-eq-ok, ok-injective}
use sftp2s.Config.Env.{env_substitute}
use sftp2s.Config.Defaults.{with_defaults, completed, completed_lem}
use sftp2s.Config.Bcrypt.{BcryptHash, hash→BcryptHash, BcryptHash→hash}
use sftp2s.Config.{
  UserConfig, Config, Sources, server_defaults, SshIdConfig, is_valid_bcrypt_hash, has_ssh_id,
  check_user, check_users, unless, complete, load, or_default,
}

-- A user with a name, a way to log in, and a hash in the form of bcrypt, if there is one.
pub record Acceptable (cost : Bytes → Result ℕ) (u : UserConfig) : Type 0 where
  pub named : u.username ≢ []
  pub login :
      ((u.password ≢ []) ⊎ (u.password_hash ≢ []))
      ⊎ ((u.authorized_keys ≢ []) ⊎ ((c : SshIdConfig) × (u.ssh_id ≡ some c) × (c.username ≢ [])))
  pub hash : (u.password_hash ≢ []) → BcryptHash cost u.password_hash

filled {ℓ} : {A : Type ℓ} (s : List A) → is_empty s ≡ false → s ≢ []
filled s h e = absurd (ground (arith, e))

has_ssh_id→some :
    (o : Option SshIdConfig)
    → has_ssh_id o ≡ true
    → (c : SshIdConfig) × (o ≡ some c) × (c.username ≢ [])
has_ssh_id→some none h = absurd (ground (arith, h))
has_ssh_id→some (some c) h = (c, refl, filled c.username (ground (arith, h)))

some→has_ssh_id :
    (o : Option SshIdConfig)
    → (c : SshIdConfig) × (o ≡ some c) × (c.username ≢ [])
    → has_ssh_id o ≡ true
some→has_ssh_id o (c, e, named) = rw e (ground (arith, named, is_empty→nil c.username))

-- Of four ways at least one is left.
one_of :
    (p q : Bytes) (keys : List Bytes) (b : Bool)
    → (is_empty p && (is_empty q && (is_empty keys && not b))) ≡ false
    → ((p ≢ []) ⊎ (q ≢ [])) ⊎ ((keys ≢ []) ⊎ (b ≡ true))
one_of (x ∷ p) q keys b h = inl (inl (filled (x ∷ p) refl))
one_of [] (x ∷ q) keys b h = inl (inr (filled (x ∷ q) refl))
one_of [] [] (x ∷ keys) b h = inr (inl (filled (x ∷ keys) refl))
one_of [] [] [] true h = inr (inr refl)
one_of [] [] [] false h = absurd (ground arith)

check_user→Acceptable :
    (cost : Bytes → Result ℕ) (u : UserConfig) → check_user cost u ≡ ok tt → Acceptable cost u
unfolding check_user
check_user→Acceptable cost u h = record {
  named = λ e. absurd (ground (arith, e));
  login =
      elim (one_of u.password u.password_hash u.authorized_keys (has_ssh_id u.ssh_id)
        (ground arith)) [
          | inl typed ↦ inl typed
          | inr (inl keys) ↦ inr (inl keys)
          | inr (inr named) ↦ inr (inr (has_ssh_id→some u.ssh_id named))
        ];
  hash =
      λ ne. hash→BcryptHash cost u.password_hash (ground (arith, ne, is_empty→nil u.password_hash));
}

Acceptable→check_user :
    (cost : Bytes → Result ℕ) (u : UserConfig) → Acceptable cost u → check_user cost u ≡ ok tt
unfolding check_user
Acceptable→check_user cost u a = ground (
  arith,
  is_empty→nil u.username,
  is_empty→nil u.password,
  is_empty→nil u.password_hash,
  is_empty→nil u.authorized_keys,
  a.named,
  some_login a.login,
  valid,
)
  where
    valid : (u.password_hash ≢ []) → is_valid_bcrypt_hash cost u.password_hash ≡ true
    valid ne = BcryptHash→hash cost u.password_hash (a.hash ne)

    some_login :
        ((u.password ≢ []) ⊎ (u.password_hash ≢ []))
          ⊎ ((u.authorized_keys ≢ [])
              ⊎ ((c : SshIdConfig) × (u.ssh_id ≡ some c) × (c.username ≢ [])))
        → ((u.password ≢ []) ⊎ (u.password_hash ≢ []))
          ⊎ ((u.authorized_keys ≢ []) ⊎ (has_ssh_id u.ssh_id ≡ true))
    some_login (inl typed) = inl typed
    some_login (inr (inl keys)) = inr (inl keys)
    some_login (inr (inr named)) = inr (inr (some→has_ssh_id u.ssh_id named))

check_users-All :
    (cost : Bytes → Result ℕ) (users : List UserConfig)
    → check_users cost users ≡ ok tt
    → All (Acceptable cost) users
unfolding check_users
check_users-All cost [] h = tt
check_users-All cost (u ∷ users) h =
    let (a, first, rest) = >>=-eq-ok (check_user cost u) _ h in
    (check_user→Acceptable cost u first, check_users-All cost users rest)

All-check_users :
    (cost : Bytes → Result ℕ) (users : List UserConfig)
    → All (Acceptable cost) users
    → check_users cost users ≡ ok tt
unfolding check_users
All-check_users cost [] h = refl
All-check_users cost (u ∷ users) h =
    rw (Acceptable→check_user cost u h.0) (All-check_users cost users h.1)

-- What a configuration file may say.
pub record IsValid (cost : Bytes → Result ℕ) (c : Config) : Type 0 where
  pub host_key :
      (c.server.host_key_type ≡ [])
      ⊎ ((c.server.host_key_type ≡ codes "ed25519") ⊎ (c.server.host_key_type ≡ codes "rsa"))
  pub some_user : c.users ≢ []
  pub users : All (Acceptable cost) c.users

known_type : Bytes → Bool
known_type s = bytes_eq s (codes "ed25519") || bytes_eq s (codes "rsa")

known_type-or_default :
    (s : Bytes)
    → (known_type (or_default s (codes "ed25519")) ≡ true)
      ↔ ((s ≡ []) ⊎ ((s ≡ codes "ed25519") ⊎ (s ≡ codes "rsa")))
unfolding known_type bytes_eq
known_type-or_default s =
    ground (arith, is_empty→nil s, bytes_eq_iff s (codes "ed25519"), bytes_eq_iff s (codes "rsa"))

unless-true : (b : Bool) (s : String) → unless b s ≡ ok tt → b ≡ true
unfolding unless
unless-true true s h = refl
unless-true false s h = absurd (ground arith)

-- Three checks in turn, and a result.
all_passed :
    (a b c : Result (Unit {0})) (d e : Config)
    → (a >>= λ _. b >>= λ _. c >>= λ _. ok d) ≡ ok e
    → (a ≡ ok tt) × (b ≡ ok tt) × (c ≡ ok tt) × (e ≡ d)
all_passed (ok _) (ok _) (ok _) d e h = (refl, refl, refl, sym (ok-injective h))
all_passed (ok _) (ok _) (err x) d e h = absurd (ground arith)
all_passed (ok _) (err x) c d e h = absurd (ground arith)
all_passed (err x) b c d e h = absurd (ground arith)

complete→IsValid :
    (cost : Bytes → Result ℕ) (c d : Config)
    → complete cost c ≡ ok d
    → IsValid cost c × (d ≡ with_defaults c)
unfolding complete server_defaults known_type
complete→IsValid cost c d h =
    let (key, some', users, e) =
      all_passed
        (unless (known_type (or_default c.server.host_key_type (codes "ed25519")))
          "invalid host_key_type")
        (unless (not (is_empty c.users)) "at least one user must be configured")
        (check_users cost c.users) (completed c) d h in
    (
      record {
        host_key = (known_type-or_default c.server.host_key_type).0 (unless-true _ _ key);
        some_user = filled c.users (negated (unless-true _ _ some'));
        users = check_users-All cost c.users users;
      },
      e ∙ completed_lem c,
    )
  where
    negated : {b : Bool} → not b ≡ true → b ≡ false
    negated h = ground arith

IsValid→complete :
    (cost : Bytes → Result ℕ) (c : Config) → IsValid cost c → complete cost c ≡ ok (with_defaults c)
unfolding complete server_defaults known_type unless
IsValid→complete cost c v =
    let key = (known_type-or_default c.server.host_key_type).1 v.host_key in
    let users = All-check_users cost c.users v.users in
    rw key (simp (some_left c.users v.some_user, users) refl) ∙ ap ok (completed_lem c)
  where
    some_left : (users : List UserConfig) → users ≢ [] → is_empty users ≡ false
    some_left [] h = absurd (h refl)
    some_left (u ∷ users) h = refl

-- Where the file can be read, its references have values and it is YAML of the right form: Load
-- returns a configuration exactly if what is decoded is valid, and then it is that with the defaults
-- in the places left empty.
pub load-IsValid :
    (from : Sources) (path bytes text : Bytes) (c d : Config)
    → from.read_file path ≡ ok bytes
    → env_substitute from.env bytes ≡ ok text
    → from.unmarshal text ≡ ok c
    → (load from path ≡ ok d) ↔ (IsValid from.cost c × (d ≡ with_defaults c))
unfolding load
load-IsValid from path bytes text c d r s u =
    rw (r, s, u)
      (
        (λ h. complete→IsValid from.cost c d h),
        (λ h. IsValid→complete from.cost c h.0 ∙ ap ok (sym h.1)),
      )
