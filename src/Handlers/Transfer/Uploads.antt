-- ===== src/Handlers/Transfer/Uploads.antt =====
-- handlers.go: an upload whose chunks come in order, and its Close.
use sftp2s.Prelude.{
  ℕ, zero, suc, ◌+◌, ◌-◌, ◌≤◌, ◌⊎◌, false, Bytes, is_empty, length, length-append, take, drop, List,
  [], ◌∷◌, ◌++◌, append_assoc, append-nil, some, ◌≡◌, refl, sym, ap, subst, ◌∙◌, inl, inr, arith,
  if◌then◌else◌,
}
use sftp2s.Result.{ok}
use sftp2s.S3.{S3}
use sftp2s.S3.Laws.{S3Laws}
use sftp2s.Storage.{Backend}
use sftp2s.Handlers.{Handlers, World}
use sftp2s.Handlers.Transfer.{writes, Writer, zeros, write_file, write_at, close}
use sftp2s.Handlers.Transfer.Writes.{Write, write_all, new_writer}

-- The chunks, each behind the one before.
unfoldable pub in_order : ℕ → List Bytes → List Write
in_order off [] = []
in_order off (p ∷ chunks) =
    record { disk = writes; bytes = p; offset = off } ∷ in_order (off + length p) chunks

-- The bytes of the chunks.
abbrev pub joined : List Bytes → Bytes
joined [] = []
joined (p ∷ chunks) = p ++ joined chunks

take_all : (xs : Bytes) → take (length xs) xs ≡ xs
take_all [] = refl
take_all (x ∷ xs) = rw (take_all xs) refl

drop_beyond : (n : ℕ) (xs : Bytes) → length xs ≤ n → drop n xs ≡ []
drop_beyond zero [] h = refl
drop_beyond (suc n) [] h = refl
drop_beyond zero (x ∷ xs) h = absurd (omega (arith, h))
drop_beyond (suc n) (x ∷ xs) h = drop_beyond n xs (omega (arith, h))

no_gap : (n : ℕ) → zeros (n - n) ≡ []
unfolding zeros
no_gap n = let e : n - n ≡ 0 = omega arith in rw e refl

write_file_end : (file p : Bytes) → write_file file p (length file) ≡ file ++ p
unfolding write_file
write_file_end file p =
    rw
      (take_all file, no_gap (length file), drop_beyond (length file + length p) file (omega arith))
      (rw (append-nil file) (append-nil (file ++ p)))

stored :
    (file p : Bytes) → (if is_empty p then file else write_file file p (length file)) ≡ file ++ p
stored file [] = sym (append-nil file)
stored file (x ∷ p) = write_file_end file (x ∷ p)

-- The upload may become `n` bytes long.
abbrev pub Allowed : ℕ → ℕ → Type 0
Allowed max n = (max ≡ 0) ⊎ (n ≤ max)

-- Nothing of the writer changed but what it has written.
pub record Holds (file : Bytes) (v w : Writer) : Type 0 where
  pub contents : w.file ≡ file
  pub backend : w.backend ≡ v.backend
  pub key : w.key ≡ v.key
  pub closed : w.closed ≡ v.closed
  pub handlers : w.handlers ≡ v.handlers

write_at-Holds :
    (w : Writer) (p : Bytes)
    → Allowed w.handlers.max_file_size (length w.file + length p)
    → Holds (w.file ++ p) w (write_at writes w p (length w.file)).1
unfolding write_at
write_at-Holds w p a = record {
  contents = ground (arith, a, stored w.file p);
  backend = ground arith;
  key = ground arith;
  closed = ground arith;
  handlers = ground arith;
}

write_all-Holds :
    (chunks : List Bytes) (w : Writer)
    → Allowed w.handlers.max_file_size (length w.file + length (joined chunks))
    → Holds (w.file ++ joined chunks) w (write_all w (in_order (length w.file) chunks))
unfolding write_all in_order
write_all-Holds [] w a = record {
  contents = sym (append-nil w.file);
  backend = refl;
  key = refl;
  closed = refl;
  handlers = refl;
}
write_all-Holds (p ∷ chunks) w a =
    let total = length-append p (joined chunks) in
    let first = write_at-Holds w p (shorter total a) in
    let v = (write_at writes w p (length w.file)).1 in
    let size : length v.file ≡ length w.file + length p =
      ap length first.contents ∙ length-append w.file p in
    let rest = write_all-Holds chunks v (fits v total size first.handlers a) in
    subst (λ off. Holds (w.file ++ joined (p ∷ chunks)) w (write_all v (in_order off chunks))) size
      (record {
        contents =
            rest.contents
            ∙ (ap (λ xs. xs ++ joined chunks) first.contents
                ∙ append_assoc w.file p (joined chunks));
        backend = rest.backend ∙ first.backend;
        key = rest.key ∙ first.key;
        closed = rest.closed ∙ first.closed;
        handlers = rest.handlers ∙ first.handlers;
      })
  where
    shorter :
        length (p ++ joined chunks) ≡ length p + length (joined chunks)
        → Allowed w.handlers.max_file_size (length w.file + length (p ++ joined chunks))
        → Allowed w.handlers.max_file_size (length w.file + length p)
    shorter total (inl free) = inl free
    shorter total (inr le) = inr (omega (arith, total, le))

    fits :
        (v : Writer)
        → length (p ++ joined chunks) ≡ length p + length (joined chunks)
        → length v.file ≡ length w.file + length p
        → v.handlers ≡ w.handlers
        → Allowed w.handlers.max_file_size (length w.file + length (p ++ joined chunks))
        → Allowed v.handlers.max_file_size (length v.file + length (joined chunks))
    fits v total size same (inl free) = inl (ap (λ h. h.max_file_size) same ∙ free)
    fits v total size same (inr le) = inr (
        subst (λ m. length v.file + length (joined chunks) ≤ m)
          (ap (λ h. h.max_file_size) (sym same)) (omega (arith, total, size, le)))

module _ (s3 : S3) (laws : S3Laws s3) where
  open s3 use {Store}

  close_stores :
      (w : Writer) (world : World Store)
      → w.closed ≡ false
      → (close s3 (ok tt) w world).0.0 ≡ ok tt
      → laws.object (close s3 (ok tt) w world).0.1.store w.backend.location w.key ≡ some w.file
  unfolding close
  close_stores w world opened e =
      rw opened (laws.upload_ok w.backend.location w.key w.file world.store (simp opened at e))

  -- With a service that follows S3.Laws: if a client uploads a file in chunks that come in order,
  -- the calls of the temporary file succeed, the whole is not longer than the limit (or there is
  -- none) and Close reports success, then the key holds the chunks, one behind the other.
  pub upload_stores :
      (b : Backend) (key : Bytes) (h : Handlers) (chunks : List Bytes) (world : World Store)
      → Allowed h.max_file_size (length (joined chunks))
      → (close s3 (ok tt) (write_all (new_writer b key h) (in_order 0 chunks)) world).0.0 ≡ ok tt
      → laws.object
          (close s3 (ok tt) (write_all (new_writer b key h) (in_order 0 chunks)) world).0.1.store
          b.location
          key
        ≡ some (joined chunks)
  upload_stores b key h chunks world a e =
      let w = write_all (new_writer b key h) (in_order 0 chunks) in
      let held =
        write_all-Holds chunks (new_writer b key h)
          (elim a [ inl z ↦ inl z | inr le ↦ inr (omega (arith, le)) ]) in
      let out = (close s3 (ok tt) w world).0.1.store in
      ap (λ c. laws.object out c.location key) (sym held.backend)
      ∙ (ap (laws.object out w.backend.location) (sym held.key)
          ∙ (close_stores w world held.closed e ∙ ap some held.contents))
