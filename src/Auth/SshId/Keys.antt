-- ===== src/Auth/SshId/Keys.antt =====
-- Which lines of an answer of sshid.io become authorized keys.
use sftp2s.Prelude.{
  ℕ, true, Bytes, codes, is_empty, is_empty→nil, trim_space, split, Dict, List, [], ◌∷◌, ◌++◌,
  Option, none, some, if◌then◌else◌, ◌≡◌, ◌⊎◌, refl, sym, ap, subst, inl, inr, All, Bool-cases,
  Option-cases, arith,
}
use sftp2s.Result.{Result, ok, err, ok-injective, >>=-eq-ok, ◌>>=◌}
use sftp2s.Config.{SshIdConfig, UserConfig, Config, has_ssh_id}
use sftp2s.Auth.{is_literal_key}
use sftp2s.Auth.SshId.{
  Outside, CacheFile, Resolver, new_ssh_id_resolver, key_matches_algorithms, keeps, filter_lines,
  filter_keys, fetch, read_cache, read_cache_stale, cache_path, resolve_remote, resolve_name,
  resolve, resolve_users, resolve_ssh_id_keys,
}

-- A line that is a key, and of one of the algorithms if there are any.
pub record IsKey (algorithms : List Bytes) (line : Bytes) : Type 0 where
  pub literal : is_literal_key line ≡ true
  pub algorithm : (algorithms ≡ []) ⊎ (key_matches_algorithms line algorithms ≡ true)

keeps-IsKey :
    (algorithms : List Bytes) (line : Bytes) → keeps algorithms line ≡ true → IsKey algorithms line
unfolding keeps
keeps-IsKey algorithms line h = record {
  literal = ground (arith, h);
  algorithm = elim (Bool-cases (is_empty algorithms)) [
    | inl free ↦ inl (is_empty→nil algorithms free)
    | inr listed ↦ inr (ground (arith, h, listed))
  ];
}

filter_lines-All :
    (algorithms lines : List Bytes) → All (IsKey algorithms) (filter_lines algorithms lines)
unfolding filter_lines
filter_lines-All algorithms [] = tt
filter_lines-All algorithms (raw ∷ lines) = elim (Bool-cases (keeps algorithms (trim_space raw))) [
  | inl kept ↦
      rw kept (keeps-IsKey algorithms (trim_space raw) kept, filter_lines-All algorithms lines)
  | inr dropped ↦ rw dropped (filter_lines-All algorithms lines)
]

abbrev Filtered : List Bytes → List Bytes → Type 0
Filtered algorithms keys = (text : Bytes) × (keys ≡ filter_keys text algorithms)

module _ (out : Outside) where
  resolve_remote-Filtered :
      (c : SshIdConfig) (now : ℕ) (path : Bytes) (files : Dict CacheFile) (keys : List Bytes)
      → (resolve_remote out c now path files).0 ≡ ok keys
      → Filtered c.algorithms keys
  unfolding resolve_remote
  resolve_remote-Filtered c now path files keys h =
      go (fetch out (codes "https://sshid.io" ++ (b'/' ∷ c.username))) refl
    where
      go :
          (r : Result Bytes)
          → fetch out (codes "https://sshid.io" ++ (b'/' ∷ c.username)) ≡ r
          → Filtered c.algorithms keys
      go (ok data') e = (data', ground (arith, h, e))
      go (err x) e =
          elim (Option-cases (if is_empty path then none else read_cache_stale out path files)) [
            | inl absent ↦ absurd (ground (arith, h, e, absent))
            | inr (cached, found) ↦ (cached, ground (arith, h, e, found))
          ]

  resolve_name-Filtered :
      (r : Resolver) (c : SshIdConfig) (now : ℕ) (files : Dict CacheFile) (keys : List Bytes)
      → (resolve_name out r c now files).0 ≡ ok keys
      → Filtered c.algorithms keys
  unfolding resolve_name
  resolve_name-Filtered r c now files keys h =
      let path = cache_path r c.username in
      elim (Option-cases (if is_empty path then none else read_cache out r.ttl now path files)) [
        | inl absent ↦
            resolve_remote-Filtered c now path files keys (rw (absent, resolve_name) at h)
        | inr (cached, found) ↦ (cached, sym (ok-injective (rw (found, resolve_name) at h)))
      ]

  resolve-IsKey :
      (r : Resolver) (c : SshIdConfig) (now : ℕ) (files : Dict CacheFile) (keys : List Bytes)
      → (resolve out r (some c) now files).0 ≡ ok keys
      → All (IsKey c.algorithms) keys
  unfolding resolve filter_keys
  resolve-IsKey r c now files keys h = elim (Bool-cases (is_empty c.username)) [
    | inl bare ↦ subst (All (IsKey c.algorithms)) (ok-injective (rw (bare, resolve) at h)) tt
    | inr named ↦
        let (text, e) = resolve_name-Filtered r c now files keys (rw (named, resolve) at h) in
        subst (All (IsKey c.algorithms)) (sym e) (filter_lines-All c.algorithms (split b'\n' text))
  ]

abbrev algorithms_of : Option SshIdConfig → List Bytes
algorithms_of none = []
algorithms_of (some c) = c.algorithms

-- The user with some keys appended, each a line that is a key of the algorithms of the user.
pub record Extended (u v : UserConfig) : Type 0 where
  pub new : List Bytes
  pub same : v ≡ record u { authorized_keys = u.authorized_keys ++ new }
  pub are_keys : All (IsKey (algorithms_of u.ssh_id)) new

-- One by one.
abbrev pub Pairs : (UserConfig → UserConfig → Type 0) → List UserConfig → List UserConfig → Type 0
Pairs R [] [] = Unit
Pairs R [] (v ∷ vs) = ⊥
Pairs R (u ∷ us) [] = ⊥
Pairs R (u ∷ us) (v ∷ vs) = R u v × Pairs R us vs

module _ (out : Outside) (r : Resolver) (now : ℕ) where
  user_keys-IsKey :
      (o : Option SshIdConfig) (files : Dict CacheFile) (keys : List Bytes)
      → (if has_ssh_id o then resolve out r o now files else (ok [], files)).0 ≡ ok keys
      → All (IsKey (algorithms_of o)) keys
  user_keys-IsKey none files keys h = subst (All (IsKey [])) (ok-injective h) tt
  user_keys-IsKey (some c) files keys h = elim (Bool-cases (has_ssh_id (some c))) [
    | inl named ↦ resolve-IsKey out r c now files keys (rw named at h)
    | inr bare ↦ subst (All (IsKey c.algorithms)) (ok-injective (rw bare at h)) tt
  ]

  resolve_users-Pairs :
      (users vs : List UserConfig) (files : Dict CacheFile)
      → (resolve_users out r now users files).0 ≡ ok vs
      → Pairs Extended users vs
  unfolding resolve_users
  resolve_users-Pairs [] vs files h = subst (Pairs Extended []) (ok-injective h) tt
  resolve_users-Pairs (u ∷ users) vs files h =
      go (if has_ssh_id u.ssh_id then resolve out r u.ssh_id now files else (ok [], files)) refl
        (λ us files' later. resolve_users-Pairs users us files' later) h
    where
      go :
          (keys : Result (List Bytes) × Dict CacheFile)
          → (if has_ssh_id u.ssh_id then resolve out r u.ssh_id now files else (ok [], files))
            ≡ keys
          → ((us : List UserConfig) (files' : Dict CacheFile)
              → (resolve_users out r now users files').0 ≡ ok us
              → Pairs Extended users us)
          → (let o : Result (List UserConfig) × Dict CacheFile = elim keys.0 [
            | err e ↦ (err e, keys.1)
            | ok new ↦
                let rest = resolve_users out r now users keys.1 in
                (
                  rest.0 >>= λ us.
                      ok (record u { authorized_keys = u.authorized_keys ++ new } ∷ us),
                  rest.1,
                )
          ] in
              o.0 ≡ ok vs)
          → Pairs Extended (u ∷ users) vs
      go (err e, files') known more h = absurd (ground (arith, h))
      go (ok new, files') known more h =
          let (us, later, e) = >>=-eq-ok (resolve_users out r now users files').0 _ h in
          subst (Pairs Extended (u ∷ users)) (ok-injective e) (
            record {
              new = new;
              same = refl;
              are_keys = user_keys-IsKey u.ssh_id files new (ap (λ k. k.0) known);
            },
            more us files' later,
          )

-- Whatever sshid.io answers and whatever the cache holds: the users stay as they are but for keys that
-- are appended, and each of these is the text of a key, so that it is never read as the path of a file,
-- of one of the algorithms of the user if the user lists any.
pub resolve_ssh_id_keys-Extended :
    (out : Outside) (now : ℕ) (cfg : Config) (files : Dict CacheFile) (users : List UserConfig)
    → (resolve_ssh_id_keys out now cfg files).0 ≡ ok users
    → Pairs Extended cfg.users users
unfolding resolve_ssh_id_keys
resolve_ssh_id_keys-Extended out now cfg files users h =
    resolve_users-Pairs out (new_ssh_id_resolver cfg.server.cache_dir) now cfg.users users files h
