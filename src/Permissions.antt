-- ===== src/Permissions.antt =====
-- internal/sftphandlers/permissions.go
use sftp2s.Prelude.{
  Bool, true, false, ◌&&◌, not, Bytes, codes, bytes_eq, to_lower, trim_space, List, [], ◌∷◌,
  if◌then◌else◌,
}
use sftp2s.Result.{permission_denied}
use sftp2s.Result.Action.{Action, require}

pub record UserPermissions : Type 0 where
  pub read : Bool
  pub write : Bool
  pub delete : Bool

-- AllPermissions
abbrev pub all_permissions : UserPermissions
all_permissions = record { read = true; write = true; delete = true }

-- `var p UserPermissions`
abbrev pub no_permissions : UserPermissions
no_permissions = record { read = false; write = false; delete = false }

-- the switch on one entry of the list
unfoldable pub add_permission : UserPermissions → Bytes → UserPermissions
add_permission p s =
    let word = to_lower (trim_space s) in
    if bytes_eq word (codes "read")
    then record p { read = true }
    else if bytes_eq word (codes "write")
    then record p { write = true }
    else if bytes_eq word (codes "delete")
    then record p { delete = true }
    else p

unfoldable pub add_permissions : UserPermissions → List Bytes → UserPermissions
add_permissions p [] = p
add_permissions p (s ∷ list) = add_permissions (add_permission p s) list

unfoldable pub or_all : UserPermissions → UserPermissions
or_all p = if not p.read && not p.write && not p.delete then all_permissions else p

-- ParsePermissions
unfoldable pub parse_permissions : List Bytes → UserPermissions
unfolding or_all
parse_permissions list = or_all (add_permissions no_permissions list)

module _ {W : Type 0} (perms : UserPermissions) where
  -- S3Handlers.requireRead
  unfoldable pub require_read : Action W (Unit {0})
  unfolding require
  require_read = require perms.read permission_denied

  -- S3Handlers.requireWrite
  unfoldable pub require_write : Action W (Unit {0})
  unfolding require
  require_write = require perms.write permission_denied

  -- S3Handlers.requireDelete
  unfoldable pub require_delete : Action W (Unit {0})
  unfolding require
  require_delete = require perms.delete permission_denied
