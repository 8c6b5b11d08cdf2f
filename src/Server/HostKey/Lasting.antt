-- ===== src/Server/HostKey/Lasting.antt =====
-- A host key that was generated or loaded is the one that is loaded later.
use sftp2s.Prelude.{
  false, Bytes, bytes_eq, bytes_eq_refl, codes, Dict, lookup, lookup-put, none, some, ◌≡◌, refl,
  sym, ap, ◌∙◌, subst, inl, inr, Bool-cases, Option-cases, arith,
}
use sftp2s.Result.{Result, ok, err, ok-injective, >>=-eq-ok}
use sftp2s.Server.HostKey.{
  KeyLibrary, Faults, HostKey, plain, wrap_rsa_signer, read_key, load_host_key, keep_key,
  generate_with, generate_host_key, load_or_generate_host_key,
}

module _ (lib : KeyLibrary) where
  open lib use {Signer}

  -- An Ed25519 key is no RSA key.
  abbrev pub EdKeys : Type 0
  EdKeys =
      (pem : Bytes) (s : Signer)
      → lib.generate_ed25519 ≡ ok pem
      → lib.parse_private_key pem ≡ ok s
      → bytes_eq (lib.key_type s) (codes "ssh-rsa") ≡ false

  load-found :
      (faults : Faults) (path pem : Bytes) (files : Dict Bytes) (s : Signer)
      → faults.read_fault ≡ none
      → lookup path files ≡ some pem
      → lib.parse_private_key pem ≡ ok s
      → load_host_key lib faults path files ≡ ok (wrap_rsa_signer lib s)
  unfolding load_host_key
  load-found faults path pem files s readable there parsed =
      let read : read_key lib faults path files ≡ ok pem =
        unfold read_key in ground (arith, readable, there) in
      rw (read, load_host_key) (rw parsed refl)

  kept :
      (faults : Faults) (wrap : Signer → HostKey lib) (path pem : Bytes) (files : Dict Bytes)
      (key : HostKey lib)
      → (keep_key lib faults wrap path pem files).0 ≡ ok key
      → (lookup path (keep_key lib faults wrap path pem files).1 ≡ some pem)
        × ((s : Signer) × (lib.parse_private_key pem ≡ ok s) × (wrap s ≡ key))
  unfolding keep_key
  kept faults wrap path pem files key h = elim (Option-cases faults.write_fault) [
    | inr (f, fault) ↦ absurd (ground (arith, h, fault))
    | inl whole ↦
        let (s, parsed, made) =
          >>=-eq-ok (lib.parse_private_key pem) _ (rw (whole, keep_key) at h) in
        (
          rw (whole, keep_key) (lookup-put path path pem files ∙ rw (bytes_eq_refl path) refl),
          (s, parsed, ok-injective made),
        )
  ]

  -- A generated key that is loaded later is the same.
  generated :
      (faults later : Faults) (source : Result Bytes) (wrap : Signer → HostKey lib) (path : Bytes)
      (files : Dict Bytes) (key : HostKey lib)
      → later.read_fault ≡ none
      → ((pem : Bytes) (s : Signer)
          → source ≡ ok pem
          → lib.parse_private_key pem ≡ ok s
          → wrap s ≡ wrap_rsa_signer lib s)
      → (generate_with lib faults source wrap path files).0 ≡ ok key
      → (pem : Bytes) × (lookup path (generate_with lib faults source wrap path files).1 ≡ some pem)
        × (load_host_key lib later path (generate_with lib faults source wrap path files).1
            ≡ ok key)
  unfolding generate_with
  generated faults later (err e) wrap path files key readable same h = absurd (ground (arith, h))
  generated faults later (ok pem) wrap path files key readable same h =
      let (there, (s, parsed, made)) = kept faults wrap path pem files key h in
      (
        pem,
        there,
        load-found later path pem _ s readable there parsed
            ∙ ap ok (sym (same pem s refl parsed) ∙ made),
      )

  generate_host_key-loaded :
      (faults later : Faults) (path type : Bytes) (files : Dict Bytes) (key : HostKey lib)
      → EdKeys
      → later.read_fault ≡ none
      → (generate_host_key lib faults path type files).0 ≡ ok key
      → (pem : Bytes) × (lookup path (generate_host_key lib faults path type files).1 ≡ some pem)
        × (load_host_key lib later path (generate_host_key lib faults path type files).1 ≡ ok key)
  unfolding generate_host_key
  generate_host_key-loaded faults later path type files key ed readable h =
      elim (Bool-cases (bytes_eq type (codes "rsa"))) [
        | inl rsa ↦
            rw (rsa, generate_host_key)
              (generated faults later lib.generate_rsa (wrap_rsa_signer lib) path files key readable
                (λ pem s e f. refl) (rw (rsa, generate_host_key) at h))
        | inr other ↦ elim (Bool-cases (bytes_eq type (codes "ed25519"))) [
          | inl ed25519 ↦
              rw (other, generate_host_key)
                (rw (ed25519, generate_host_key)
                  (generated faults later lib.generate_ed25519 plain path files key readable
                    (λ pem s e f. unfold wrap_rsa_signer in rw (ed pem s e f) refl)
                    (rw (ed25519, generate_host_key) at (rw (other, generate_host_key) at h))))
          | inr unknown ↦ absurd (ground (arith, h, other, unknown))
        ]
      ]

  reload_host_key :
      (faults later : Faults) (path : Bytes) (files : Dict Bytes) (key : HostKey lib)
      → later.read_fault ≡ none
      → load_host_key lib faults path files ≡ ok key
      → load_host_key lib later path files ≡ ok key
  unfolding load_host_key
  reload_host_key faults later path files key readable h =
      let (pem, read, rest) = >>=-eq-ok (read_key lib faults path files) _ h in
      let (s, parsed, made) = >>=-eq-ok (lib.parse_private_key pem) _ rest in
      let there : lookup path files ≡ some pem = unfold read_key in ground (arith, read) in
      load-found later path pem files s readable there parsed ∙ made

  at_missing :
      (faults : Faults) (path type : Bytes) (files : Dict Bytes)
      → lookup path files ≡ none
      → load_or_generate_host_key lib faults path type files
        ≡ generate_host_key lib faults path type files
  unfolding load_or_generate_host_key
  at_missing faults path type files missing = rw (missing, load_or_generate_host_key) refl

  at_found :
      (faults : Faults) (path type pem : Bytes) (files : Dict Bytes)
      → lookup path files ≡ some pem
      → load_or_generate_host_key lib faults path type files
        ≡ (load_host_key lib faults path files, files)
  unfolding load_or_generate_host_key
  at_found faults path type pem files found = rw (found, load_or_generate_host_key) refl

  -- The identity of the server lasts: the key that a start obtains, by loading or generating it, is the
  -- key that a later start obtains from the files left behind, whatever type it asks for, provided that
  -- the file can be read. A generated Ed25519 key is no RSA key.
  pub host_key_lasts :
      (faults later : Faults) (path type type' : Bytes) (files : Dict Bytes) (key : HostKey lib)
      → EdKeys
      → later.read_fault ≡ none
      → (load_or_generate_host_key lib faults path type files).0 ≡ ok key
      → (load_or_generate_host_key lib later path type'
          (load_or_generate_host_key lib faults path type files).1).0
        ≡ ok key
  host_key_lasts faults later path type type' files key ed readable h =
      elim (Option-cases (lookup path files)) [
        | inr (pem, found) ↦
            let first = at_found faults path type pem files found in
            subst (λ o. (load_or_generate_host_key lib later path type' o.1).0 ≡ ok key) (sym first)
              (ap (λ o. o.0) (at_found later path type' pem files found)
                ∙ reload_host_key faults later path files key readable
                    (sym (ap (λ o. o.0) first) ∙ h))
        | inl missing ↦
            let first = at_missing faults path type files missing in
            let (pem, there, loaded) =
              generate_host_key-loaded faults later path type files key ed readable
                (sym (ap (λ o. o.0) first) ∙ h) in
            subst (λ o. (load_or_generate_host_key lib later path type' o.1).0 ≡ ok key) (sym first)
              (ap (λ o. o.0) (at_found later path type' pem _ there) ∙ loaded)
      ]
