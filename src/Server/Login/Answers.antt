-- ===== src/Server/Login/Answers.antt =====
-- server.go: which logins the callbacks accept.
use sftp2s.Prelude.{
  ℕ, Bool, true, false, ◌&&◌, ◌||◌, Bytes, bytes_eq, bytes_eq_iff, is_empty, Dict, lookup,
  lookup-put, List, [], ◌∷◌, none, some, if◌then◌else◌, ◌≡◌, ◌⊎◌, inl, inr, ◌↔◌, refl, sym, ap, ◌∙◌,
  subst, In, Bool-cases, Option-cases, arith, String,
}
use sftp2s.Result.{ok, >>=-eq-ok, ok-injective}
use sftp2s.Config.{UserConfig}
use sftp2s.Auth.{Crypto, load_authorized_keys, password_matches}
use sftp2s.Failures.{holds, is_blocked}
use sftp2s.Server.Users.{find_user}
use sftp2s.Server.Login.{
  Login, password, SshConfig, callback, check_blocked, any_password, any_key, keys_of,
  password_callback, add_keys, load_user_keys, authenticate,
}

-- The address is blocked at the time.
unfoldable pub blocked_at : Bytes → ℕ → Login → Bool
blocked_at remote now l = elim l.tracker [
  | none ↦ false
  | some t ↦ holds now (lookup remote t.blocked)
]

check_blocked_answer :
    (remote : Bytes) (now : ℕ) (l : Login)
    → (check_blocked remote now l).1 ≡ blocked_at remote now l
unfolding check_blocked blocked_at is_blocked holds
check_blocked_answer remote now l = ground arith

-- Both callbacks accept exactly if the address is not blocked and a credential fits.
pub callback_answer :
    (accepts : Bool) (refusal : String) (remote : Bytes) (now : ℕ) (l : Login)
    → ((callback accepts refusal remote now l).0 ≡ ok tt)
      ↔ ((blocked_at remote now l ≡ false) × (accepts ≡ true))
unfolding callback
callback_answer accepts refusal remote now l = ground (arith, check_blocked_answer remote now l)

module _ (crypto : Crypto) where
  open crypto use {PublicKey}

  -- An entry of the user, which the password fits.
  pub record Fits (user pass : Bytes) (u : UserConfig) : Type 0 where
    pub name : u.username ≡ user
    pub credential : password_matches crypto u pass ≡ true

  pub any_password-Fits :
      (users : List UserConfig) (user pass : Bytes)
      → any_password crypto users user pass ≡ true
      → (u : UserConfig) × In u users × Fits user pass u
  unfolding any_password
  any_password-Fits [] user pass h = absurd (ground arith)
  any_password-Fits (u ∷ users) user pass h =
      elim (Bool-cases (bytes_eq u.username user && password_matches crypto u pass)) [
        | inl yes' ↦ (
          u,
          inl refl,
          record {
            name = (bytes_eq_iff u.username user).0 (ground arith);
            credential = ground arith;
          },
        )
        | inr no' ↦
            let (v, i, f) = any_password-Fits users user pass (simp no' at h) in (v, inr i, f)
      ]

  pub Fits-any_password :
      (users : List UserConfig) (user pass : Bytes) (u : UserConfig)
      → In u users
      → Fits user pass u
      → any_password crypto users user pass ≡ true
  unfolding any_password
  Fits-any_password [] user pass u i f = absurd i
  Fits-any_password (v ∷ users) user pass u (inl e) f =
      subst
        (λ w.
          ((bytes_eq w.username user && password_matches crypto w pass)
            || any_password crypto users user pass)
          ≡ true)
        e (ground (arith, f.credential, (bytes_eq_iff u.username user).1 f.name))
  Fits-any_password (v ∷ users) user pass u (inr i) f =
      ground (arith, Fits-any_password users user pass u i f)

  -- A password is accepted exactly if the callback is set, the address is not blocked, and some entry
  -- of the user fits; the entry need not be the first with the name.
  pub password_accepted :
      (cfg : SshConfig crypto) (user remote pass : Bytes) (now : ℕ) (l : Login)
      → ((authenticate crypto cfg user remote (password pass) now l).0 ≡ ok tt) ↔ (
          (cfg.password_callback_set ≡ true)
          × (blocked_at remote now l ≡ false)
          × ((u : UserConfig) × In u cfg.users × Fits user pass u))
  unfolding authenticate password_callback
  password_accepted cfg user remote pass now l =
      let answer =
        callback_answer (any_password crypto cfg.users user pass) "invalid credentials" remote now
          l in
      (
        λ h.
            let r = answer.0 (ground (arith, h)) in
            (ground (arith, h), r.0, any_password-Fits cfg.users user pass r.1),
        λ (set, free, (u, i, f)).
            ground (arith, set, answer.1 (free, Fits-any_password cfg.users user pass u i f)),
      )

  -- What the callbacks know of the keys of a user.
  pub record KeysOf (users : List UserConfig) (user : Bytes) (keys : List PublicKey) : Type 0 where
    pub entry : UserConfig
    pub listed : In entry users
    pub name : entry.username ≡ user
    pub loaded : load_authorized_keys crypto entry.authorized_keys ≡ ok keys

  skip_empty :
      (sources : List Bytes)
      → (if is_empty sources then ok [] else load_authorized_keys crypto sources)
        ≡ load_authorized_keys crypto sources
  unfolding load_authorized_keys
  skip_empty [] = refl
  skip_empty (s ∷ sources) = refl

  added :
      (name user : Bytes) (loaded keys : List PublicKey) (known : Dict (List PublicKey))
      → lookup user (add_keys crypto name loaded known) ≡ some keys
      → (lookup user known ≡ some keys) ⊎ ((name ≡ user) × (loaded ≡ keys))
  added name user [] keys known e = inl e
  added name user (k ∷ loaded) keys known e = elim (Bool-cases (bytes_eq name user)) [
    | inl same ↦ inr (
      (bytes_eq_iff name user).0 same,
      ground (arith, e, lookup-put name user (k ∷ loaded) known),
    )
    | inr other ↦ inl (ground (arith, e, lookup-put name user (k ∷ loaded) known))
  ]

  load_user_keys-KeysOf :
      (users : List UserConfig) (known user_keys : Dict (List PublicKey)) (user : Bytes)
      (keys : List PublicKey)
      → load_user_keys crypto users known ≡ ok user_keys
      → lookup user user_keys ≡ some keys
      → (lookup user known ≡ some keys) ⊎ KeysOf users user keys
  unfolding load_user_keys
  load_user_keys-KeysOf [] known user_keys user keys h e =
      inl (subst (λ m. lookup user m ≡ some keys) (sym (ok-injective h)) e)
  load_user_keys-KeysOf (u ∷ users) known user_keys user keys h e =
      let (loaded, first, rest) =
        >>=-eq-ok
          (if is_empty u.authorized_keys
            then ok []
            else load_authorized_keys crypto u.authorized_keys)
          (λ keys. load_user_keys crypto users (add_keys crypto u.username keys known)) h in
      elim (load_user_keys-KeysOf users (add_keys crypto u.username loaded known) user_keys user
        keys rest e) [
          | inl before ↦ elim (added u.username user loaded keys known before) [
            | inl known' ↦ inl known'
            | inr (name, same) ↦ inr (record {
              entry = u;
              listed = inl refl;
              name = name;
              loaded = sym (skip_empty u.authorized_keys) ∙ (first ∙ ap ok same);
            })
          ]
          | inr later ↦ inr (record {
            entry = later.entry;
            listed = inr later.listed;
            name = later.name;
            loaded = later.loaded;
          })
        ]

  -- A user who is listed.
  unfoldable pub Listed : List UserConfig → Bytes → Type 0
  Listed users user = (u : UserConfig) × In u users × (u.username ≡ user)

  pub listed-find_user :
      (users : List UserConfig) (user : Bytes)
      → Listed users user
      → (u : UserConfig) × (find_user user users ≡ some u)
  unfolding find_user Listed
  listed-find_user [] user (u, i, e) = absurd i
  listed-find_user (v ∷ users) user (u, i, e) = elim (Bool-cases (bytes_eq v.username user)) [
    | inl same ↦ (v, rw same refl)
    | inr other ↦ elim i [
      | inl first ↦
          absurd (
            ground (arith, (bytes_eq_iff v.username user).1 (ap (λ w. w.username) (sym first) ∙ e)))
      | inr later ↦ let (w, f) = listed-find_user users user (u, later, e) in (w, rw other f)
    ]
  ]

  any_key-nil :
      (keys : List PublicKey) (key : PublicKey)
      → any_key crypto keys key ≡ true
      → is_empty keys ≡ false
  unfolding any_key
  any_key-nil [] key h = absurd (ground arith)
  any_key-nil (k ∷ keys) key h = refl

  pub key_listed :
      (users : List UserConfig) (user_keys : Dict (List PublicKey)) (user : Bytes) (key : PublicKey)
      → load_user_keys crypto users [] ≡ ok user_keys
      → any_key crypto (keys_of crypto (lookup user user_keys)) key ≡ true
      → Listed users user
  unfolding Listed lookup
  key_listed users user_keys user key h e = elim (Option-cases (lookup user user_keys)) [
    | inl absent ↦
        absurd (ground (arith, any_key-nil (keys_of crypto (lookup user user_keys)) key e))
    | inr (keys, found) ↦ elim (load_user_keys-KeysOf users [] user_keys user keys h found) [
      | inl before ↦ absurd (ground (arith, before))
      | inr k ↦ (k.entry, k.listed, k.name)
    ]
  ]
