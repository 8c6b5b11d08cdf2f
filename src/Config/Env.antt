-- ===== src/Config/Env.antt =====
-- internal/config/config.go: the references to environment variables in the configuration file.
pub mod References
use sftp2s.Prelude.{
  ℕ, zero, suc, Bool, true, false, Bytes, codes, bytes_eq, is_empty, length, split_2, List, [], ◌∷◌,
  ◌++◌, Option, none, some, ◌==◌, if◌then◌else◌,
}
use sftp2s.Result.{Result, ok, err, told, ◌>>=◌}

-- What the process takes from outside: os.Getenv, and the verb %q of package fmt.
pub record Environment : Type 0 where
  pub getenv : Bytes → Bytes
  pub quote : Bytes → Bytes

-- What parseEnvExpr returns.
pub record EnvExpr : Type 0 where
  pub name : Bytes
  pub modifier_of : Bytes
  pub arg : Bytes

-- what stands behind the colon, where there is one
unfoldable pub modifier : Bytes → Option Bytes → EnvExpr
modifier name none = record { name = name; modifier_of = []; arg = [] }
modifier name (some []) = record { name = name; modifier_of = []; arg = [] }
modifier name (some (c ∷ rest)) =
    if c == b'-'
    then record { name = name; modifier_of = b'-' ∷ []; arg = rest }
    else if c == b'?'
    then record { name = name; modifier_of = b'?' ∷ []; arg = rest }
    else record { name = name; modifier_of = []; arg = [] }

-- parseEnvExpr
unfoldable pub parse_env_expr : Bytes → EnvExpr
unfolding modifier
parse_env_expr inner = let parts = split_2 b':' inner in modifier parts.0 parts.1

-- the message of a required variable
abbrev pub complaint : Environment → Bytes → Bytes → Bytes
complaint env name [] = codes "environment variable " ++ (env.quote name ++ codes " is required")
complaint env name (c ∷ arg) = c ∷ arg

-- the switch for a variable that is empty
unfoldable pub when_empty : Environment → EnvExpr → Result Bytes
when_empty env e =
    if is_empty e.modifier_of
    then ok []
    else if bytes_eq e.modifier_of (b'-' ∷ [])
    then ok e.arg
    else if bytes_eq e.modifier_of (b'?' ∷ [])
    then err (told (complaint env e.name e.arg))
    else ok []

-- resolveEnv
unfoldable pub resolve_env : Environment → EnvExpr → Result Bytes
unfolding when_empty
resolve_env env e =
    if is_empty (env.getenv e.name) then when_empty env e else ok (env.getenv e.name)

unfoldable pub write : Bytes → Result Bytes → Result Bytes
write s (ok rest) = ok (s ++ rest)
write s (err e) = err e

-- Behind `${`: `go n` is the loop from `n` bytes further on than the `$`.
unfoldable pub reference : Environment → (ℕ → Result Bytes) → Bytes × Option Bytes → Result Bytes
unfolding write
reference env go (inner, none) = write (b'$' ∷ []) (go 0)
reference env go (inner, some after) = do
  val ← resolve_env env (parse_env_expr inner)
  write val (go (suc (suc (length inner))))

-- Behind a `$`.
unfoldable pub dollar : Environment → (ℕ → Result Bytes) → Bytes → Result Bytes
unfolding reference
dollar env go [] = ok (b'$' ∷ [])
dollar env go (d ∷ s) =
    if d == b'{' then reference env go (split_2 b'}' s) else write (b'$' ∷ []) (go 0)

-- The loop of envSubstitute. Its index runs ahead behind a reference: `skip` bytes are still to be
-- passed over.
unfoldable pub substitute : Environment → ℕ → Bytes → Result Bytes
unfolding dollar
substitute env skip [] = ok []
substitute env (suc skip) (c ∷ s) = substitute env skip s
substitute env zero (c ∷ s) =
    let go = λ (n : ℕ). substitute env n s in
    if c == b'$' then dollar env go s else write (c ∷ []) (go 0)

-- envSubstitute
unfoldable pub env_substitute : Environment → Bytes → Result Bytes
unfolding substitute
env_substitute env s = substitute env 0 s
