-- ===== src/Auth/SshId/Outage.antt =====
-- The cache when sshid.io cannot be reached.
use sftp2s.Prelude.{
  ℕ, false, Bytes, bytes_eq_refl, codes, is_empty, Dict, lookup, lookup-put, delete, List, [], ◌∷◌,
  ◌++◌, none, some, ◌≡◌, ◌≢◌, refl, sym, ap, ◌∙◌, inl, inr, Option-cases, arith,
}
use sftp2s.Result.{Error, Result, ok, err, ok-injective}
use sftp2s.Config.{SshIdConfig}
use sftp2s.Auth.SshId.{
  Outside, CacheFile, Resolver, filter_keys, fetch, read_cache, read_cache_stale, cache_path,
  write_cache, resolve_remote, resolve_name,
}

-- The address of the keys of a user.
abbrev pub url : SshIdConfig → Bytes
url c = codes "https://sshid.io" ++ (b'/' ∷ c.username)

-- The cache holds a text with the keys.
abbrev Holds : Bytes → List Bytes → List Bytes → Dict CacheFile → Type 0
Holds path algorithms keys files =
    (f : CacheFile) × (lookup path files ≡ some f) × (filter_keys f.content algorithms ≡ keys)

-- The cache can be written.
pub record Writable (out : Outside) : Type 0 where
  pub mkdir : out.mkdir_fault ≡ none
  pub write : out.write_fault ≡ none
  pub rename : out.rename_fault ≡ none

module _ (out : Outside) where
  read_cache_stale-found :
      (path text : Bytes) (files : Dict CacheFile)
      → read_cache_stale out path files ≡ some text
      → (f : CacheFile) × (lookup path files ≡ some f) × (f.content ≡ text)
  unfolding read_cache_stale
  read_cache_stale-found path text files h = elim (Option-cases (lookup path files)) [
    | inl absent ↦ absurd (ground (arith, h, absent))
    | inr (f, found) ↦ (f, found, ground (arith, h, found))
  ]

  read_cache-found :
      (ttl now : ℕ) (path text : Bytes) (files : Dict CacheFile)
      → read_cache out ttl now path files ≡ some text
      → (f : CacheFile) × (lookup path files ≡ some f) × (f.content ≡ text)
  unfolding read_cache
  read_cache-found ttl now path text files h = elim (Option-cases (lookup path files)) [
    | inl absent ↦ absurd (ground (arith, h, absent))
    | inr (f, found) ↦ (f, found, ground (arith, h, found))
  ]

  write_cache-lookup :
      (now : ℕ) (path data' : Bytes) (files : Dict CacheFile)
      → Writable out
      → lookup path (write_cache out now path data' files).1
        ≡ some (record { content = data'; mod_time = now })
  unfolding write_cache
  write_cache-lookup now path data' files w =
      rw (w.mkdir, write_cache)
        (rw (w.write, write_cache)
          (rw w.rename (
            lookup-put path path (record { content = data'; mod_time = now })
              (delete (path ++ codes ".tmp") files)
            ∙ rw (bytes_eq_refl path) refl)))

  -- What was served can be served again from the cache.
  resolve_remote-Holds :
      (c : SshIdConfig) (now : ℕ) (path : Bytes) (files : Dict CacheFile) (keys : List Bytes)
      → Writable out
      → is_empty path ≡ false
      → (resolve_remote out c now path files).0 ≡ ok keys
      → Holds path c.algorithms keys (resolve_remote out c now path files).1
  unfolding resolve_remote
  resolve_remote-Holds c now path files keys w set h = go (fetch out (url c)) refl
    where
      go :
          (r : Result Bytes)
          → fetch out (url c) ≡ r
          → Holds path c.algorithms keys (resolve_remote out c now path files).1
      go (ok data') e =
          rw (e, resolve_remote)
            (rw (set, resolve_remote)
              (
                record { content = data'; mod_time = now },
                write_cache-lookup now path data' files w,
                ok-injective (rw (e, resolve_remote) at h),
              ))
      go (err x) e = elim (Option-cases (read_cache_stale out path files)) [
        | inl absent ↦ absurd (ground (arith, h, e, set, absent))
        | inr (text, found) ↦
            let (f, there, same) = read_cache_stale-found path text files found in
            rw (e, resolve_remote)
              (rw (set, resolve_remote)
                (rw (found, resolve_remote)
                  (
                    f,
                    there,
                    ap (λ t. filter_keys t c.algorithms) same ∙ ground (arith, h, e, set, found),
                  )))
      ]

  resolve_name-Holds :
      (r : Resolver) (c : SshIdConfig) (now : ℕ) (files : Dict CacheFile) (keys : List Bytes)
      → Writable out
      → is_empty (cache_path r c.username) ≡ false
      → (resolve_name out r c now files).0 ≡ ok keys
      → Holds (cache_path r c.username) c.algorithms keys (resolve_name out r c now files).1
  unfolding resolve_name
  resolve_name-Holds r c now files keys w set h =
      elim (Option-cases (read_cache out r.ttl now (cache_path r c.username) files)) [
        | inl absent ↦
            rw (set, resolve_name)
              (rw (absent, resolve_name)
                (resolve_remote-Holds c now (cache_path r c.username) files keys w set
                  (rw (absent, resolve_name) at (rw (set, resolve_name) at h))))
        | inr (text, found) ↦
            let (f, there, same) =
              read_cache-found r.ttl now (cache_path r c.username) text files found in
            rw (set, resolve_name)
              (rw (found, resolve_name)
                (
                  f,
                  there,
                  ap (λ t. filter_keys t c.algorithms) same
                      ∙ ok-injective (rw (found, resolve_name) at (rw (set, resolve_name) at h)),
                ))
      ]

  Holds-read_cache_stale :
      (path : Bytes) (algorithms keys : List Bytes) (files : Dict CacheFile)
      → out.read_fault ≡ none
      → Holds path algorithms keys files
      → (text : Bytes) × (read_cache_stale out path files ≡ some text)
        × (filter_keys text algorithms ≡ keys)
  unfolding read_cache_stale
  Holds-read_cache_stale path algorithms keys files readable (f, there, same) =
      (f.content, ground (arith, readable, there), same)

  Holds-resolve_name :
      (r : Resolver) (c : SshIdConfig) (now : ℕ) (files : Dict CacheFile) (keys : List Bytes)
      (e : Error)
      → is_empty (cache_path r c.username) ≡ false
      → out.read_fault ≡ none
      → fetch out (url c) ≡ err e
      → Holds (cache_path r c.username) c.algorithms keys files
      → (resolve_name out r c now files).0 ≡ ok keys
  unfolding resolve_name resolve_remote
  Holds-resolve_name r c now files keys e set readable down holds =
      elim (Option-cases (read_cache out r.ttl now (cache_path r c.username) files)) [
        | inl absent ↦
            let (text, stale, same) =
              Holds-read_cache_stale (cache_path r c.username) c.algorithms keys files readable
                holds in
            ground (arith, set, absent, down, stale, same)
        | inr (text, found) ↦
            let (f, there, same) =
              read_cache-found r.ttl now (cache_path r c.username) text files found in
            let (g, there', kept) = holds in
            let one : f ≡ g = ground (arith, there, there') in
            rw (set, resolve_name)
              (rw (found, resolve_name)
                (ap ok (
                  ap (λ t. filter_keys t c.algorithms) (sym same ∙ ap (λ x. x.content) one)
                  ∙ kept)))
      ]

-- Once the keys of a user have been resolved with a cache that can be written, they are resolved to the
-- same keys whenever sshid.io fails later, however old the copy is, provided that the cache can be read.
pub resolve_outage :
    (out later : Outside) (r : Resolver) (c : SshIdConfig) (now time : ℕ) (files : Dict CacheFile)
    (keys : List Bytes) (e : Error)
    → Writable out
    → cache_path r c.username ≢ []
    → (resolve_name out r c now files).0 ≡ ok keys
    → later.read_fault ≡ none
    → fetch later (url c) ≡ err e
    → (resolve_name later r c time (resolve_name out r c now files).1).0 ≡ ok keys
resolve_outage out later r c now time files keys e w named served readable down =
    let set = filled (cache_path r c.username) named in
    Holds-resolve_name later r c time _ keys e set readable down
      (resolve_name-Holds out r c now files keys w set served)
  where
    filled : (path : Bytes) → path ≢ [] → is_empty path ≡ false
    filled [] h = absurd (h refl)
    filled (x ∷ path) h = refl
