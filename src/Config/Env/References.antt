-- ===== src/Config/Env/References.antt =====
-- What envSubstitute makes of a file: each closed reference is replaced, all else stays.
use sftp2s.Prelude.{
  ℕ, suc, Bytes, bytes_eq, is_empty, is_empty→nil, length, split_2, split_2-append, split_2-Lacks,
  Lacks, List, [], ◌∷◌, ◌++◌, none, some, ◌==◌, if◌then◌else◌, ◌≡◌, ◌≢◌, refl, sym, ap, ◌∙◌, arith,
  All, Bool-cases, inl, inr, append_assoc,
}
use sftp2s.Result.{Result, ok, err, told, ◌>>=◌}
use sftp2s.Config.Env.{
  Environment, parse_env_expr, modifier, complaint, when_empty, resolve_env, write, reference,
  dollar, substitute, env_substitute,
}

-- No `${` begins in the text.
abbrev pub Plain : Bytes → Type 0
Plain [] = Unit
Plain (c ∷ []) = Unit
Plain (c ∷ d ∷ s) = ((c ≡ b'$') → d ≢ b'{') × Plain (d ∷ s)

-- No `${` in the text is closed by a `}`.
abbrev pub Inert : Bytes → Type 0
Inert [] = Unit
Inert (c ∷ []) = Unit
Inert (c ∷ d ∷ s) = ((c ≡ b'$') → (d ≡ b'{') → Lacks b'}' s) × Inert (d ∷ s)

-- Plain text, and the inside of the reference behind it.
pub record Part : Type 0 where
  pub text : Bytes
  pub inner : Bytes

pub record WellFormed (p : Part) : Type 0 where
  pub plain : Plain p.text
  pub closed : Lacks b'}' p.inner

-- The file that consists of the parts and the text behind them.
abbrev pub render : List Part → Bytes → Bytes
render [] end = end
render (p ∷ parts) end = p.text ++ (b'$' ∷ b'{' ∷ p.inner ++ (b'}' ∷ render parts end))

-- The file with the values in place of the references, or the error of the first that has none.
unfoldable pub expand : Environment → List Part → Bytes → Result Bytes
expand env [] end = ok end
expand env (p ∷ parts) end = do
  val ← resolve_env env (parse_env_expr p.inner)
  rest ← expand env parts end
  ok (p.text ++ (val ++ rest))

-- The bytes that the index has run over.
substitute-append :
    (env : Environment) (p : Bytes) (c : ℕ) (r : Bytes)
    → substitute env (suc (length p)) (p ++ (c ∷ r)) ≡ substitute env 0 r
unfolding substitute
substitute-append env [] c r = refl
substitute-append env (d ∷ p) c r = substitute-append env p c r

write-write : (s t : Bytes) (r : Result Bytes) → write s (write t r) ≡ write (s ++ t) r
unfolding write
write-write s t (ok r) = ap ok (sym (append_assoc s t r))
write-write s t (err e) = refl

-- A byte that begins no closed reference is copied.
copied :
    (env : Environment) (c d : ℕ) (s : Bytes)
    → ((c ≡ b'$') → (d ≡ b'{') → Lacks b'}' s)
    → substitute env 0 (c ∷ d ∷ s) ≡ write (c ∷ []) (substitute env 0 (d ∷ s))
unfolding substitute dollar reference
copied env c d s h = elim (Bool-cases (c == b'$')) [
  | inl sign ↦ elim (Bool-cases (d == b'{')) [
    | inl brace ↦
        let parts = split_2-Lacks b'}' s (h (ground arith) (ground arith)) in
        let same : c ≡ b'$' = ground arith in rw (sign, brace) (rw parts (rw same refl))
    | inr other ↦ let same : c ≡ b'$' = ground arith in rw (sign, other) (rw same refl)
  ]
  | inr letter ↦ rw letter refl
]

copied_last : (env : Environment) (c : ℕ) → substitute env 0 (c ∷ []) ≡ ok (c ∷ [])
unfolding substitute dollar write
copied_last env c = ground arith

-- A text without a closed reference.
substitute-Inert : (env : Environment) (s : Bytes) → Inert s → substitute env 0 s ≡ ok s
unfolding write
substitute-Inert env [] h = unfold substitute in refl
substitute-Inert env (c ∷ []) h = copied_last env c
substitute-Inert env (c ∷ d ∷ s) h =
    copied env c d s h.0 ∙ ap (write (c ∷ [])) (substitute-Inert env (d ∷ s) h.1)

write-nil : (r : Result Bytes) → write [] r ≡ r
unfolding write
write-nil (ok r) = refl
write-nil (err e) = refl

-- A plain text before a `$`.
substitute-Plain :
    (env : Environment) (s r : Bytes)
    → Plain s
    → substitute env 0 (s ++ (b'$' ∷ r)) ≡ write s (substitute env 0 (b'$' ∷ r))
substitute-Plain env [] r h = sym (write-nil (substitute env 0 (b'$' ∷ r)))
substitute-Plain env (c ∷ []) r h = copied env c b'$' r (λ e f. absurd (ground arith))
substitute-Plain env (c ∷ d ∷ s) r h =
    copied env c d (s ++ (b'$' ∷ r)) (λ e f. absurd (h.0 e f))
    ∙ (ap (write (c ∷ [])) (substitute-Plain env (d ∷ s) r h.1)
        ∙ write-write (c ∷ []) (d ∷ s) (substitute env 0 (b'$' ∷ r)))

opened :
    (env : Environment) (t : Bytes)
    → substitute env 0 (b'$' ∷ b'{' ∷ t)
      ≡ reference env (λ n. substitute env n (b'{' ∷ t)) (split_2 b'}' t)
unfolding substitute dollar
opened env t = refl

passed :
    (env : Environment) (n : ℕ) (c : ℕ) (t : Bytes)
    → substitute env (suc n) (c ∷ t) ≡ substitute env n t
unfolding substitute
passed env n c t = refl

-- A reference: the value, and what stands behind the brace.
referred :
    (env : Environment) (inner r : Bytes)
    → Lacks b'}' inner
    → substitute env 0 (b'$' ∷ b'{' ∷ inner ++ (b'}' ∷ r))
      ≡ (resolve_env env (parse_env_expr inner) >>= λ val. write val (substitute env 0 r))
unfolding reference
referred env inner r h =
    opened env (inner ++ (b'}' ∷ r))
    ∙ rw (split_2-append b'}' inner r h) (
        ap (λ x. resolve_env env (parse_env_expr inner) >>= λ val. write val x)
          (passed env (suc (length inner)) b'{' (inner ++ (b'}' ∷ r))
            ∙ substitute-append env inner b'}' r))

write->>= :
    (s : Bytes) (v : Result Bytes) (r : Result Bytes)
    → write s (v >>= λ val. write val r) ≡ (v >>= λ val. r >>= λ rest. ok (s ++ (val ++ rest)))
unfolding write
write->>= s (ok v) (ok r) = refl
write->>= s (ok v) (err e) = refl
write->>= s (err e) r = refl

-- A file is read as plain texts and references in turn, up to a last text in which no reference is
-- closed: its substitution puts the value of each reference in its place, in order, leaves every other
-- byte as it is, and fails with the error of the first reference that has one.
pub env_substitute-render :
    (env : Environment) (parts : List Part) (end : Bytes)
    → All WellFormed parts
    → Inert end
    → env_substitute env (render parts end) ≡ expand env parts end
unfolding env_substitute expand
env_substitute-render env [] end h i = substitute-Inert env end i
env_substitute-render env (p ∷ parts) end h i =
    let rest = env_substitute-render env parts end h.1 i in
    substitute-Plain env p.text (b'{' ∷ p.inner ++ (b'}' ∷ render parts end)) h.0.plain
    ∙ (ap (write p.text) (referred env p.inner (render parts end) h.0.closed)
        ∙ (write->>= p.text (resolve_env env (parse_env_expr p.inner))
              (substitute env 0 (render parts end))
            ∙ ap
                (λ x. resolve_env env (parse_env_expr p.inner) >>= λ val.
                  x >>= λ rest. ok (p.text ++ (val ++ rest)))
                rest))

alone : (name : Bytes) → Lacks b':' name → parse_env_expr name ≡ modifier name none
unfolding parse_env_expr
alone name h = rw (split_2-Lacks b':' name h) refl

behind_colon :
    (name r : Bytes)
    → Lacks b':' name
    → parse_env_expr (name ++ (b':' ∷ r)) ≡ modifier name (some r)
unfolding parse_env_expr
behind_colon name r h = rw (split_2-append b':' name r h) refl

module _ (env : Environment) (name : Bytes) where
  resolved_alone : resolve_env env (modifier name none) ≡ ok (env.getenv name)
  unfolding resolve_env when_empty modifier
  resolved_alone = ground (arith, is_empty→nil (env.getenv name))

  resolved_default :
      (arg : Bytes)
      → resolve_env env (modifier name (some (b'-' ∷ arg)))
        ≡ ok (if is_empty (env.getenv name) then arg else env.getenv name)
  unfolding resolve_env when_empty modifier bytes_eq
  resolved_default arg = ground arith

  resolved_required :
      (arg : Bytes)
      → resolve_env env (modifier name (some (b'?' ∷ arg))) ≡ (
          if is_empty (env.getenv name)
          then err (told (complaint env name arg))
          else ok (env.getenv name))
  unfolding resolve_env when_empty modifier bytes_eq
  resolved_required arg = ground arith

  resolved_other :
      (arg : Bytes) (c : ℕ)
      → c ≢ b'-'
      → c ≢ b'?'
      → resolve_env env (modifier name (some (c ∷ arg))) ≡ ok (env.getenv name)
  unfolding resolve_env when_empty modifier
  resolved_other arg c d q = ground (arith, is_empty→nil (env.getenv name))

-- The forms of a reference to a variable whose name has no colon: alone, with a default, with a
-- message, and with a modifier that is neither, which is ignored. A variable that is set wins over
-- each; one that is empty gives the empty text, the default or the message as an error.
pub resolve_env_forms :
    (env : Environment) (name arg : Bytes) (c : ℕ)
    → Lacks b':' name
    → c ≢ b'-'
    → c ≢ b'?'
    → let value = env.getenv name in
      (resolve_env env (parse_env_expr name) ≡ ok value)
      × (resolve_env env (parse_env_expr (name ++ (b':' ∷ b'-' ∷ arg)))
          ≡ ok (if is_empty value then arg else value))
      × (resolve_env env (parse_env_expr (name ++ (b':' ∷ b'?' ∷ arg)))
          ≡ (if is_empty value then err (told (complaint env name arg)) else ok value))
      × (resolve_env env (parse_env_expr (name ++ (b':' ∷ c ∷ arg))) ≡ ok value)
resolve_env_forms env name arg c h d q = (
  rw (alone name h) (resolved_alone env name),
  rw (behind_colon name (b'-' ∷ arg) h) (resolved_default env name arg),
  rw (behind_colon name (b'?' ∷ arg) h) (resolved_required env name arg),
  rw (behind_colon name (c ∷ arg) h) (resolved_other env name arg c d q),
)
