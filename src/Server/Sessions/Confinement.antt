-- ===== src/Server/Sessions/Confinement.antt =====
-- From the configuration to the objects: what a session that the server has opened can write.
use sftp2s.Prelude.{
  ℕ, Bytes, is_empty, trim, Dict, lookup, All, All-of_lookup, In, All-In, List, [], ◌∷◌, ◌++◌,
  Option, some, if◌then◌else◌, ◌≡◌, ◌⊎◌, true, sym, subst, arith,
}
use sftp2s.Config.{UserConfig}
use sftp2s.Auth.{Crypto}
use sftp2s.S3.{S3, Location}
use sftp2s.S3.Laws.{S3Laws}
use sftp2s.Storage.{Backend, slash}
use sftp2s.Storage.Frames.{Beyond}
use sftp2s.Vfs.{prefix_for}
use sftp2s.Vfs.Chroot.{names_have, session, session_backend}
use sftp2s.Vfs.Regular.{Regular, session-Regular}
use sftp2s.Handlers.{Request, World}
use sftp2s.Handlers.Commands.{filecmd}
use sftp2s.Handlers.Confinement.{Fenced}
use sftp2s.Handlers.Confinement.Requests.{filecmd_confined}
use sftp2s.Server.Users.{find_user, prefixes_of, user_allowed_backends, user_backend_prefixes}
use sftp2s.Server.Sessions.{State, session_handlers, Session, System}
use sftp2s.Server.Sessions.Steps.{Coherent, Legit, Reach, reach-Sound}

-- The prefix of a backend for a user with the prefix `p` in it.
unfoldable pub chroot : Bytes → Bytes → Bytes
chroot p base = if is_empty (trim slash p) then base else base ++ trim slash p ++ slash ∷ []

module _ (crypto : Crypto) where
  -- The key `k` of the bucket `l` lies in no backend that the entry allows, below the prefixes that the
  -- configuration gives to the backend and to the user in it.
  abbrev pub Outside : State crypto → UserConfig → Location → Bytes → Type 0
  Outside s u l k =
      (j : Bytes) (b : Backend)
      → lookup j s.vfs ≡ some b
      → (u.backends ≡ []) ⊎ (names_have u.backends j ≡ true)
      → Beyond l k b.location (chroot (prefix_for (prefixes_of u) j) b.prefix)

  handlers-Fenced :
      (s : State crypto) (u : UserConfig) (user remote : Bytes) (rate_limiter : Option ℕ)
      (l : Location) (k : Bytes)
      → Coherent crypto s
      → find_user user s.cfg.users ≡ some u
      → Outside s u l k
      → All (λ e. Fenced l k e.1) (session_handlers crypto s user remote rate_limiter).vfs
  unfolding session_handlers chroot
  handlers-Fenced s u user remote rate_limiter l k coherent known outside =
      let allowed : user_allowed_backends s.cfg user ≡ u.backends =
        unfold user_allowed_backends in ground (arith, known) in
      let prefixes : user_backend_prefixes s.cfg user ≡ prefixes_of u =
        unfold user_backend_prefixes in ground (arith, known) in
      settings (sym allowed) (sym prefixes) (
        All-of_lookup (Fenced l k) (session s.vfs u.backends (prefixes_of u)) r.distinct (λ j c e.
          let (b, found, may, x) = session_backend s.vfs u.backends (prefixes_of u) j c e in
          record {
            normal = r.normal j c e;
            away =
                subst (λ p. Beyond l k c.location p) (sym x.prefix)
                  (subst (λ m. Beyond l k m (chroot (prefix_for (prefixes_of u) j) b.prefix))
                    (sym x.location) (outside j b found may));
          }))
    where
      settings :
          {names names' : List Bytes} {ps ps' : Dict Bytes}
          → names ≡ names'
          → ps ≡ ps'
          → All (λ e. Fenced l k e.1) (session s.vfs names ps)
          → All (λ e. Fenced l k e.1) (session s.vfs names' ps')
      settings {names} {names'} {ps} {ps'} e f h =
          subst (λ q. All (λ x. Fenced l k x.1) (session s.vfs names' q)) f
            (subst (λ n. All (λ x. Fenced l k x.1) (session s.vfs n ps)) e h)

      r : Regular (session s.vfs u.backends (prefixes_of u))
      r = session-Regular s.vfs u.backends (prefixes_of u) coherent.regular

  -- Every session that the server has open, however it came to its state, leaves an object as it was,
  -- whatever command it sends and whatever the service answers, if the entry of its user does not allow
  -- the object: it lies in no allowed backend under the prefixes of the backend and of the user. The
  -- service follows S3.Laws.
  pub session_confined :
      (s3 : S3) (laws : S3Laws s3) (fuel : ℕ) (s : System crypto) (c : Session crypto)
      (u : UserConfig) (r : Request) (w : World s3.Store) (l : Location) (k : Bytes)
      → Reach crypto s
      → In c s.sessions
      → find_user c.user c.state.cfg.users ≡ some u
      → Outside c.state u l k
      → laws.object (filecmd s3 fuel c.handlers r w).1.store l k ≡ laws.object w.store l k
  session_confined s3 laws fuel s c u r w l k reach open_now known outside =
      let legit : Legit crypto c =
        All-In (Legit crypto) c s.sessions (reach-Sound crypto s reach).sessions open_now in
      filecmd_confined s3 laws fuel c.handlers r w l k (
        subst (λ h. All (λ e. Fenced l k e.1) h.vfs) (sym legit.own)
          (handlers-Fenced c.state u c.user legit.remote legit.rate_limiter l k legit.coherent known
            outside))
