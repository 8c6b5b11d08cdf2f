-- ===== src/Auth/SshId.antt =====
-- internal/auth/sshid.go and internal/cache/cache.go: the keys of a user of sshid.io, fetched and cached.
-- A cached file has a content and the time of its last change.
pub mod FileName
pub mod Keys
pub mod Outage
use sftp2s.Prelude.{
  ℕ, ◌+◌, Bool, true, false, not, ◌&&◌, ◌||◌, Bytes, bytes_eq, codes, is_empty, has_prefix,
  trim_space, trim_left, is_blank, split, to_lower, Dict, lookup, put, delete, List, [], ◌∷◌, ◌++◌,
  Option, none, some, ltb, ◌==◌, if◌then◌else◌,
}
use sftp2s.Result.{Error, message, Result, ok, err, ◌>>=◌}
use sftp2s.Config.{SshIdConfig, UserConfig, Config, has_ssh_id}
use sftp2s.Auth.{is_literal_key}
use sftp2s.Path.{clean}
use sftp2s.Auth.SshId.FileName.{safe_file_name}

-- http.Response
pub record Response : Type 0 where
  pub status : ℕ
  pub body : Result Bytes

-- What goes on outside: the answers of the web (http.NewRequest and Client.Do), and what goes wrong with
-- the files.
pub record Outside : Type 0 where
  pub get : Bytes → Result Response
  pub stat_fault : Option Error
  pub read_fault : Option Error
  pub mkdir_fault : Option Error
  pub write_fault : Option (Error × Bytes)
  pub rename_fault : Option Error

pub record CacheFile : Type 0 where
  pub content : Bytes
  pub mod_time : ℕ

-- sshidResolver
pub record Resolver : Type 0 where
  pub cache_dir : Bytes
  pub ttl : ℕ

-- SubDir of internal/cache
unfoldable pub sub_dir : Bytes → Bytes → Bytes
sub_dir cache_dir feature = if is_empty cache_dir then [] else clean (cache_dir ++ (b'/' ∷ feature))

-- NewSSHIDResolver
unfoldable pub new_ssh_id_resolver : Bytes → Resolver
unfolding sub_dir
new_ssh_id_resolver cache_dir = record {
  cache_dir = sub_dir cache_dir (codes "sshid");
  ttl = 3600000000000;
}

-- sshidAlgorithmPrefixes
unfoldable pub algorithm_prefixes : Bytes → List Bytes
algorithm_prefixes alg =
    if bytes_eq alg (codes "ed25519")
    then codes "ssh-ed25519" ∷ []
    else if bytes_eq alg (codes "rsa")
    then codes "ssh-rsa" ∷ []
    else if bytes_eq alg (codes "ecdsa")
    then codes "ecdsa-sha2-nistp256"
      ∷ codes "ecdsa-sha2-nistp384"
      ∷ codes "ecdsa-sha2-nistp521"
      ∷ []
    else []

until_blank : Bytes → Bytes
until_blank [] = []
until_blank (c ∷ s) = let rest = until_blank s in if is_blank c then [] else c ∷ rest

-- strings.Fields(line)[0], or "" where there is no field
unfoldable pub first_field : Bytes → Bytes
unfolding until_blank
first_field line = until_blank (trim_left is_blank line)

unfoldable pub elem : Bytes → List Bytes → Bool
elem s [] = false
elem s (t ∷ ts) = bytes_eq s t || elem s ts

-- the loops of sshidKeyMatchesAlgorithms
unfoldable pub type_matches : Bytes → List Bytes → Bool
unfolding algorithm_prefixes elem
type_matches key_type [] = false
type_matches key_type (alg ∷ algorithms) =
    elem key_type (algorithm_prefixes (to_lower alg)) || type_matches key_type algorithms

-- sshidKeyMatchesAlgorithms
unfoldable pub key_matches_algorithms : Bytes → List Bytes → Bool
unfolding first_field type_matches
key_matches_algorithms line algorithms =
    if is_empty (first_field line) then false else type_matches (first_field line) algorithms

-- the body of the loop of filterKeys, without its continues
unfoldable pub keeps : List Bytes → Bytes → Bool
unfolding key_matches_algorithms
keeps algorithms line =
    not (is_empty line || has_prefix line (codes "#"))
    && (is_literal_key line
        && not (not (is_empty algorithms) && not (key_matches_algorithms line algorithms)))

unfoldable pub filter_lines : List Bytes → List Bytes → List Bytes
unfolding keeps
filter_lines algorithms [] = []
filter_lines algorithms (raw ∷ lines) =
    let rest = filter_lines algorithms lines in
    if keeps algorithms (trim_space raw) then trim_space raw ∷ rest else rest

-- filterKeys
unfoldable pub filter_keys : Bytes → List Bytes → List Bytes
unfolding filter_lines
filter_keys text algorithms = filter_lines algorithms (split b'\n' text)

abbrev pub is_none {ℓ} : {A : Type ℓ} → Option A → Bool
is_none none = true
is_none (some a) = false

-- the path of the cached keys, which is "" without a cache
unfoldable pub cache_path : Resolver → Bytes → Bytes
cache_path r username =
    if is_empty r.cache_dir
    then []
    else clean
        (r.cache_dir ++ (b'/' ∷ codes "sshid-" ++ (safe_file_name username ++ codes ".keys")))

module _ (out : Outside) where
  -- fetch, behind the request
  unfoldable pub read_response : Response → Result Bytes
  read_response resp =
      if resp.status == 404
      then ok []
      else if resp.status == 200
      then resp.body
      else err (message "http status")

  -- fetch
  unfoldable pub fetch : Bytes → Result Bytes
  unfolding read_response
  fetch url = out.get url >>= read_response

  -- readCacheStale
  unfoldable pub read_cache_stale : Bytes → Dict CacheFile → Option Bytes
  read_cache_stale path files = elim (lookup path files) [
    | none ↦ none
    | some f ↦ if is_none out.read_fault then some f.content else none
  ]

  -- readCache
  unfoldable pub read_cache : ℕ → ℕ → Bytes → Dict CacheFile → Option Bytes
  read_cache ttl now path files = elim (lookup path files) [
    | none ↦ none
    | some f ↦
        if is_none out.stat_fault && (not (ltb (f.mod_time + ttl) now) && is_none out.read_fault)
        then some f.content
        else none
  ]

  -- writeCache
  unfoldable pub write_cache :
      ℕ → Bytes → Bytes → Dict CacheFile → Result (Unit {0}) × Dict CacheFile
  write_cache now path data' files =
      let tmp = path ++ codes ".tmp" in
      elim out.mkdir_fault [
        | some e ↦ (err e, files)
        | none ↦ elim out.write_fault [
          | some (e, written) ↦
              (err e, put tmp (record { content = written; mod_time = now }) files)
          | none ↦ elim out.rename_fault [
            | some e ↦ (err e, put tmp (record { content = data'; mod_time = now }) files)
            | none ↦
                (ok tt, put path (record { content = data'; mod_time = now }) (delete tmp files))
          ]
        ]
      ]

  -- Resolve, where the cache has no fresh copy
  unfoldable pub resolve_remote :
      SshIdConfig → ℕ → Bytes → Dict CacheFile → Result (List Bytes) × Dict CacheFile
  unfolding fetch read_cache_stale write_cache filter_keys
  resolve_remote c now path files = elim (fetch (codes "https://sshid.io" ++ (b'/' ∷ c.username))) [
    | ok data' ↦ (
      ok (filter_keys data' c.algorithms),
      if is_empty path then files else (write_cache now path data' files).1,
    )
    | err e ↦ elim (if is_empty path then none else read_cache_stale path files) [
      | some cached ↦ (ok (filter_keys cached c.algorithms), files)
      | none ↦ (err e, files)
    ]
  ]

  -- Resolve, for a user name that is not empty
  unfoldable pub resolve_name :
      Resolver → SshIdConfig → ℕ → Dict CacheFile → Result (List Bytes) × Dict CacheFile
  unfolding cache_path read_cache resolve_remote
  resolve_name r c now files =
      let path = cache_path r c.username in
      elim (if is_empty path then none else read_cache r.ttl now path files) [
        | some cached ↦ (ok (filter_keys cached c.algorithms), files)
        | none ↦ resolve_remote c now path files
      ]

  -- Resolve
  unfoldable pub resolve :
      Resolver → Option SshIdConfig → ℕ → Dict CacheFile → Result (List Bytes) × Dict CacheFile
  unfolding resolve_name
  resolve r none now files = (ok [], files)
  resolve r (some c) now files =
      if is_empty c.username then (ok [], files) else resolve_name r c now files

  -- the loop of ResolveSSHIDKeys
  unfoldable pub resolve_users :
      Resolver → ℕ → List UserConfig → Dict CacheFile → Result (List UserConfig) × Dict CacheFile
  unfolding resolve
  resolve_users r now [] files = (ok [], files)
  resolve_users r now (u ∷ users) files =
      let keys = if has_ssh_id u.ssh_id then resolve r u.ssh_id now files else (ok [], files) in
      elim keys.0 [
        | err e ↦ (err e, keys.1)
        | ok new ↦
            let rest = resolve_users r now users keys.1 in
            (
              rest.0 >>= λ us. ok (record u { authorized_keys = u.authorized_keys ++ new } ∷ us),
              rest.1,
            )
      ]

  -- ResolveSSHIDKeys
  unfoldable pub resolve_ssh_id_keys :
      ℕ → Config → Dict CacheFile → Result (List UserConfig) × Dict CacheFile
  unfolding new_ssh_id_resolver resolve_users
  resolve_ssh_id_keys now cfg files =
      resolve_users (new_ssh_id_resolver cfg.server.cache_dir) now cfg.users files
