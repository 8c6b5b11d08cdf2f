-- ===== src/Failures/StateFile/Atomic.antt =====
-- What a save leaves in the files.
use sftp2s.Prelude.{
  ℕ, false, Bytes, bytes_eq, bytes_eq_refl, codes, is_empty, is_empty→nil, Dict, lookup, lookup-put,
  put, delete, [], ◌∷◌, ◌++◌, some, ◌≡◌, ◌≢◌, ◌⊎◌, refl, inl, inr, Bool-cases, Option-cases, arith,
}
use sftp2s.Result.{Result, ok, err}
use sftp2s.Failures.{FailureTracker}
use sftp2s.Failures.StateFile.{AuthState, Formats, Faults, expire, replace_file, save}

-- What stands in the state file.
abbrev pub snapshot : FailureTracker → AuthState
snapshot t = record { attempts = t.attempts; blocked = t.blocked }

longer : (path : Bytes) → bytes_eq (path ++ codes ".tmp") path ≡ false
unfolding bytes_eq
longer [] = refl
longer (c ∷ path) = ground (arith, longer path)

Result-cases : (r : Result (Unit {0})) → (r ≡ ok tt) ⊎ (r ≢ ok tt)
Result-cases (ok tt) = inl refl
Result-cases (err e) = inr (λ h. absurd (ground (arith, h)))

module _ (formats : Formats) (faults : Faults) where
  replaced :
      (path data' : Bytes) (files : Dict Bytes)
      → (replace_file formats faults path data' files).0 ≡ ok tt
      → lookup path (replace_file formats faults path data' files).1 ≡ some data'
  unfolding replace_file
  replaced path data' files h = ground (
    arith,
    h,
    lookup-put path path data' (delete (path ++ codes ".tmp") files),
    bytes_eq_refl path,
  )

  beside :
      (path written : Bytes) (files : Dict Bytes)
      → lookup path (put (path ++ codes ".tmp") written files) ≡ lookup path files
  beside path written files =
      ground (arith, lookup-put (path ++ codes ".tmp") path written files, longer path)

  not_replaced :
      (path data' : Bytes) (files : Dict Bytes)
      → (replace_file formats faults path data' files).0 ≢ ok tt
      → lookup path (replace_file formats faults path data' files).1 ≡ lookup path files
  unfolding replace_file
  not_replaced path data' files h = elim (Option-cases faults.write_fault) [
    | inl whole ↦ elim (Option-cases faults.rename_fault) [
      | inl none' ↦ absurd (ground (arith, h, whole, none'))
      | inr (e, fault) ↦ rw (whole, fault) (beside path data' files)
    ]
    | inr (f, fault) ↦ rw fault (beside path f.1 files)
  ]

  -- Where a save reports an error, whatever went wrong, the state file is as it was; where it reports
  -- success, the file holds the encoded state of a tracker that is the old one without what has expired.
  pub save_atomic :
      (now : ℕ) (t : FailureTracker) (files : Dict Bytes)
      → t.state_file ≢ []
      → (((save formats faults now t files).0 ≢ ok tt)
          × (lookup t.state_file (save formats faults now t files).2 ≡ lookup t.state_file files))
        ⊎ (((save formats faults now t files).0 ≡ ok tt)
            × ((data' : Bytes) × (formats.encode (snapshot (expire now t)) ≡ ok data')
                × (lookup t.state_file (save formats faults now t files).2 ≡ some data')))
  unfolding save
  save_atomic now t files named = elim (Bool-cases (is_empty t.state_file)) [
    | inl bare ↦ absurd (named (is_empty→nil t.state_file bare))
    | inr set ↦ rw set (go (formats.encode (snapshot (expire now t))) refl)
  ]
    where
      go :
          (encoded : Result Bytes)
          → formats.encode (snapshot (expire now t)) ≡ encoded
          → let out : Result (Unit {0}) × FailureTracker × Dict Bytes = elim encoded [
            | err e ↦ (err e, expire now t, files)
            | ok data' ↦
                let r = replace_file formats faults t.state_file data' files in
                (r.0, expire now t, r.1)
          ] in
            ((out.0 ≢ ok tt) × (lookup t.state_file out.2 ≡ lookup t.state_file files))
            ⊎ ((out.0 ≡ ok tt)
                × ((data' : Bytes) × (formats.encode (snapshot (expire now t)) ≡ ok data')
                    × (lookup t.state_file out.2 ≡ some data')))
      go (err e) known = inl ((λ h. absurd (ground (arith, h))), refl)
      go (ok data') known =
          elim (Result-cases (replace_file formats faults t.state_file data' files).0) [
            | inl good ↦ inr (good, (data', known, replaced t.state_file data' files good))
            | inr bad ↦ inl (bad, not_replaced t.state_file data' files bad)
          ]
