-- ===== src/Server/Users.antt =====
-- server.go: what the configuration says of one user.
use sftp2s.Prelude.{
  ℕ, not, ◌&&◌, Bytes, bytes_eq, is_empty, ltb, Dict, List, [], ◌∷◌, Option, none, some,
  if◌then◌else◌,
}
use sftp2s.Config.{UserConfig, Config}
use sftp2s.Permissions.{UserPermissions, all_permissions, parse_permissions}
use sftp2s.Vfs.{star}

-- The first entry of cfg.Users with the name.
unfoldable pub find_user : Bytes → List UserConfig → Option UserConfig
find_user name [] = none
find_user name (u ∷ users) = if bytes_eq u.username name then some u else find_user name users

-- userAllowedBackends
unfoldable pub user_allowed_backends : Config → Bytes → List Bytes
unfolding find_user
user_allowed_backends cfg name = elim (find_user name cfg.users) [ none ↦ [] | some u ↦ u.backends ]

-- the loops of effectiveMaxFileSize and effectiveMaxReadSize
unfoldable pub first_limit : (UserConfig → ℕ) → Bytes → List UserConfig → ℕ → ℕ
first_limit limit name [] default = default
first_limit limit name (u ∷ users) default =
    let rest = first_limit limit name users default in
    if bytes_eq u.username name && ltb 0 (limit u) then limit u else rest

-- effectiveMaxFileSize
unfoldable pub effective_max_file_size : Config → Bytes → ℕ
unfolding first_limit
effective_max_file_size cfg name =
    first_limit (λ u. u.max_file_size) name cfg.users cfg.server.max_file_size

-- effectiveMaxReadSize
unfoldable pub effective_max_read_size : Config → Bytes → ℕ
unfolding first_limit
effective_max_read_size cfg name =
    first_limit (λ u. u.max_read_size) name cfg.users cfg.server.max_read_size

-- the prefixes of the entry of a user
unfoldable pub prefixes_of : UserConfig → Dict Bytes
prefixes_of u =
    if not (is_empty u.backend_prefixes)
    then u.backend_prefixes
    else if not (is_empty u.prefix)
    then (star, u.prefix) ∷ []
    else []

-- userBackendPrefixes
unfoldable pub user_backend_prefixes : Config → Bytes → Dict Bytes
unfolding find_user prefixes_of
user_backend_prefixes cfg name = elim (find_user name cfg.users) [
  | none ↦ []
  | some u ↦ prefixes_of u
]

-- GetUserPermissions of internal/sftphandlers/permissions.go
unfoldable pub get_user_permissions : Config → Bytes → UserPermissions
unfolding find_user parse_permissions
get_user_permissions cfg name = elim (find_user name cfg.users) [
  | none ↦ all_permissions
  | some u ↦ parse_permissions u.permissions
]
