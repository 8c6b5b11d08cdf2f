-- ===== src/Handlers/Commands/Guards.antt =====
-- The permissions that a command needs.
use sftp2s.Prelude.{ℕ, Bool, true, false, ◌&&◌, ◌≡◌, refl, arith}
use sftp2s.Result.{Error, Result, ok, err}
use sftp2s.Result.Action.{Action, fail, lift, require, ◌>>=◌, ◌>>◌}
use sftp2s.Permissions.{UserPermissions, require_read, require_write, require_delete}
use sftp2s.S3.{S3}
use sftp2s.Vfs.{Target, root, at}
use sftp2s.Handlers.{Handlers, Request, World, resolve}
use sftp2s.Handlers.Copy.{handle_rename, rename_between}
use sftp2s.Handlers.Commands.{
  Command, set_stat, renames, copies, removes, mkdirs, unknown, command_of, remove, mkdir, copy,
  run_command, filecmd,
}

-- What each command needs: a rename removes and writes, a copy reads and writes.
abbrev pub allowed : UserPermissions → Command → Bool
allowed p renames = p.delete && p.write
allowed p copies = p.read && p.write
allowed p removes = p.delete
allowed p mkdirs = p.write
allowed p set_stat = true
allowed p unknown = true

-- The call failed and changed nothing, not even the metrics.
pub record Refused {W A : Type 0} (m : Action W A) (w : W) : Type 0 where
  pub error : Error
  pub failed : (m w).0 ≡ err error
  pub unchanged : (m w).1 ≡ w

module _ {W B : Type 0} (w : W) where
  fail-Refused : (e : Error) → Refused (fail {A = B} e) w
  unfolding fail
  fail-Refused e = record { error = e; failed = refl; unchanged = refl }

  stop-Refused : (b : Bool) (e : Error) (m : Action W B) → b ≡ false → Refused (require b e >> m) w
  unfolding require ◌>>=◌
  stop-Refused b e m h = rw (h, require) (record { error = e; failed = refl; unchanged = refl })

  -- Where what follows is refused too.
  pass-Refused :
      (b : Bool) (e : Error) (m : Action W B) → Refused m w → Refused (require b e >> m) w
  unfolding require ◌>>=◌
  pass-Refused true e m r = record { error = r.error; failed = r.failed; unchanged = r.unchanged }
  pass-Refused false e m r = record { error = e; failed = refl; unchanged = refl }

  -- One of two permissions is missing.
  both-Refused :
      (a b : Bool) (d e : Error) (m : Action W B)
      → (a && b) ≡ false
      → Refused (require a d >> (require b e >> m)) w
  both-Refused false b d e m h = stop-Refused false d _ refl
  both-Refused true b d e m h = pass-Refused true d _ (stop-Refused b e m h)

module _ {W A B : Type 0} (w : W) where
  lift-Refused :
      (r : Result A) (f : A → Action W B) → ((a : A) → Refused (f a) w) → Refused (lift r >>= f) w
  unfolding ◌>>=◌
  lift-Refused (ok a) f h = record {
    error = (h a).error;
    failed = (h a).failed;
    unchanged = (h a).unchanged;
  }
  lift-Refused (err e) f h = record { error = e; failed = refl; unchanged = refl }

module _ (s3 : S3) (fuel : ℕ) (h : Handlers) (w : World s3.Store) where
  rename_between-Refused :
      (old new : Target)
      → allowed h.perms renames ≡ false
      → Refused (rename_between s3 fuel h old new) w
  unfolding rename_between require_delete require_write
  rename_between-Refused root new d = fail-Refused w _
  rename_between-Refused (at b key) root d = fail-Refused w _
  rename_between-Refused (at b key) (at c key') d =
      both-Refused w h.perms.delete h.perms.write _ _ _ d

  run_command-Refused :
      (c : Command) (r : Request)
      → allowed h.perms c ≡ false
      → Refused (run_command s3 fuel h c r) w
  unfolding run_command handle_rename copy remove mkdir require_read require_write require_delete
  run_command-Refused renames r d =
      lift-Refused w (resolve h r.filepath) _
        (λ old. lift-Refused w (resolve h r.target) _ (λ new. rename_between-Refused old new d))
  run_command-Refused copies r d = both-Refused w h.perms.read h.perms.write _ _ _ d
  run_command-Refused removes r d = stop-Refused w h.perms.delete _ _ d
  run_command-Refused mkdirs r d = stop-Refused w h.perms.write _ _ d
  run_command-Refused set_stat r d = absurd (ground arith)
  run_command-Refused unknown r d = absurd (ground arith)

-- A command for which the user lacks a permission (delete and write for a rename, read and write for
-- a copy, delete for a removal, write for a new directory) fails and changes nothing: not the store,
-- nor the metrics.
pub filecmd_guarded :
    (s3 : S3) (fuel : ℕ) (h : Handlers) (r : Request) (w : World s3.Store)
    → allowed h.perms (command_of r.method) ≡ false
    → Refused (filecmd s3 fuel h r) w
unfolding filecmd
filecmd_guarded s3 fuel h r w d = run_command-Refused s3 fuel h w (command_of r.method) r d
