-- ===== src/Tests/Fixtures.antt =====
-- A session of the user alice, who may use the backend "docs" with her own prefix.
use sftp2s.Prelude.{codes, true, false, none, [], ◌∷◌}
use sftp2s.S3.{Location}
use sftp2s.Fake.Service.{Fakes}
use sftp2s.Metrics.{new_metrics}
use sftp2s.Storage.{Backend}
use sftp2s.Permissions.{all_permissions}
use sftp2s.Vfs.{Vfs}
use sftp2s.Handlers.{Handlers, Request, World}

abbrev pub docs_location : Location
docs_location = record { endpoint = codes "https://s3"; bucket = codes "docs" }

abbrev pub docs : Backend
docs = record {
  name = codes "docs";
  location = docs_location;
  prefix = codes "alice/";
  part_size = 5242880;
  timeout = 60000000000;
}

abbrev pub docs_vfs : Vfs
docs_vfs = (codes "docs", docs) ∷ []

abbrev pub alice : Handlers
alice = record {
  vfs = docs_vfs;
  user = codes "alice";
  remote = codes "[::1]:22";
  perms = all_permissions;
  rate_limiter = none;
  max_file_size = 100;
  max_read_size = 0;
  cache_dir = [];
  metered = true;
}

abbrev pub reader_only : Handlers
reader_only = record alice { perms = record { read = true; write = false; delete = false } }

-- One file of alice, and one of bob.
abbrev pub fakes : Fakes
fakes l = record {
  objects = (codes "alice/a.txt", codes "hello") ∷ (codes "bob/b.txt", codes "secret") ∷ [];
  fail = false;
}

abbrev pub world : World Fakes
world = record { store = fakes; metrics = new_metrics; now = 0 }

abbrev pub removal : Request
removal = record { method = codes "Remove"; filepath = codes "/docs/a.txt"; target = [] }
