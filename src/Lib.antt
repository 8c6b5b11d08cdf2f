-- ===== src/Lib.antt =====
-- sftp2s3, an SFTP server whose files are objects of S3, and what is proved of its core.
--
-- The program reads its configuration (internal/config) and builds a state (internal/server): the host
-- key, the keys of its users (internal/auth), the backends (internal/vfs). A client logs in and gets a
-- session: the backends that its user may use, with the permissions, limits and metrics of the user.
-- Each SFTP request names a path, which the handlers (internal/sftphandlers) clean and resolve to a
-- backend and a key; the request becomes calls of the S3 client, directly or by the operations of
-- internal/storage. A reload replaces the state; the open sessions keep the one they began with.
--
--   Prelude        Go's strings, slices and maps; tests on numbers
--   Result         errors, and actions: functions from a state to a result and the state behind
--   S3             the S3 client of aws-sdk-go-v2, as an interface, and in S3.Laws its documented
--                  behaviour; the store is whatever the interface says
--   Storage        internal/storage/backend.go and operations.go: ObjectKey, DirPrefix, NewBackend,
--                  DeletePrefix and the other operations
--   Vfs            internal/vfs/vfs.go: NewVFS, Filter, WithUserPrefix, WithBackendPrefixes, Resolve
--   Path           sanitizePath of internal/sftphandlers/handlers.go, with path.Clean
--   Permissions    internal/sftphandlers/permissions.go
--   FileInfo       internal/sftphandlers/fileinfo.go: the entries of a listing, and its pages
--   Handlers       internal/sftphandlers/handlers.go: Filecmd (Commands, with the renames and copies
--                  of Copy), Filelist (Listing), Fileread and Filewrite (Transfer)
--   Metrics        internal/metrics/metrics.go, the collectors
--   Limits         internal/ratelimit/ratelimit.go: connections per user, token buckets
--   Failures       internal/auth/authfailures.go: failed logins and blocks, and the state file
--   Config         internal/config/config.go: Load with its defaults and checks, and in Config.Env the
--                  references to the environment
--   Auth           internal/auth/auth.go and passhash.go: authorized keys and passwords; Auth.SshId is
--                  sshid.go and internal/cache/cache.go: the keys of sshid.io and their cache
--   Server         internal/server/server.go: the callbacks of a login (Login), the settings of a user
--                  (Users), BuildState and the steps of the server (Sessions, Assembly), where
--                  reload_config is the reload of cmd/sftp2s3/main.go; HostKey is hostkey.go
--   Health         internal/health/health.go, and Validate of internal/vfs/vfs.go
--   Fake           internal/storagetest/fake.go: the in-memory S3 of the tests; Fake.Lawful shows
--                  that it fulfils the laws of S3.Laws, so that no theorem about a lawful service is
--                  empty
--   Tests          the theorems at concrete inputs
--
-- A value of the program that changes is passed along: the state of an action is a World, the S3
-- store with the metrics and a clock that stands still. Text is a list of bytes. A loop over the
-- pages of a listing runs on fuel and fails with out_of_fuel when that is used up; a service has
-- some number of pages left, and Storage.Termination shows that more fuel than that is enough. The
-- fuel of the batches of DeletePrefix is the number of the keys (Storage.Batches).
--
-- What the program takes from outside is an argument: bcrypt and the keys of golang.org/x/crypto
-- (Auth.Crypto, Server.HostKey.KeyLibrary), JSON and durations (Failures.StateFile.Formats), YAML and the
-- environment (Config.Sources), the web (Auth.SshId.Outside), the token bucket (Limits.Limiters). A file
-- system is a map from paths to contents, and what goes wrong with it is an argument too. BuildState
-- takes the results of the other parts as an argument (Server.Sessions.Parts); Server.Assembly gives it
-- the parts of the program.
--
-- Not modelled: log lines, contexts and timeouts (a call that times out is a call that fails), locks
-- (a method that holds its lock for its whole body is one step), XML and HTTP below the status codes,
-- the accept loop, the shutdown and the channels of a connection, flags and signals. A handshake and its
-- login are one step of the server. Sizes, offsets and times are natural numbers, in the ranges of their
-- types. The sum of WriteAt, whose offset a client may choose at will, is that of int64 and wraps; the
-- offset of a read is taken not to be negative.
pub mod Prelude
pub mod Result
pub mod S3
pub mod Storage
pub mod Metrics
pub mod Permissions
pub mod FileInfo
pub mod Path
pub mod Vfs
pub mod Handlers
pub mod Fake
pub mod Limits
pub mod Failures
pub mod Config
pub mod Auth
pub mod Server
pub mod Health
pub mod Tests
