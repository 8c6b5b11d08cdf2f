-- ===== src/Handlers/Confinement.antt =====
-- What a session can write: nothing outside the prefixes of its backends, whatever the service
-- answers. Here the requests to the service; the copies and the commands are in the modules below.
pub mod Copies
pub mod Requests
use sftp2s.Prelude.{ℕ, Bool, Bytes, codes, ◌≡◌, refl, ◌∙◌, All}
use sftp2s.Result.Action.{Action}
use sftp2s.Result.Action.Moves.{IsPreorder, Moves}
use sftp2s.S3.{S3, Location}
use sftp2s.S3.Laws.{S3Laws}
use sftp2s.Storage.{Backend}
use sftp2s.Storage.Keys.{NormalPrefix}
use sftp2s.Storage.Frames.{Beyond, SameStore, exists-Moves, entries-Moves}
use sftp2s.Handlers.{Handlers, World, timed_s3_op, object_exists, prefix_has_entries}

-- The key `k` of the bucket `l` does not belong to the backend.
abbrev pub Away : Location → Bytes → Backend → Type 0
Away l k b = Beyond l k b.location b.prefix

-- What a session relies on for one backend, and the key `k` of the bucket `l` outside of it.
pub record Fenced (l : Location) (k : Bytes) (b : Backend) : Type 0 where
  pub normal : NormalPrefix b.prefix
  pub away : Away l k b

module _ (s3 : S3) (laws : S3Laws s3) (l : Location) (k : Bytes) where
  open s3 use {Store, Paginator}
  open laws use {object}

  abbrev pub SameObject : World Store → World Store → Type 0
  SameObject v w = object w.store l k ≡ object v.store l k

  pub SameObject-order : IsPreorder SameObject
  SameObject-order = record { same = λ w. refl; chain = λ u v w p q. q ∙ p }

  pub timed-Moves :
      {A : Type 0} (h : Handlers) (op : Bytes) (b : Backend) (m : Action Store A)
      → Moves (SameStore s3 laws l k) m
      → Moves SameObject (timed_s3_op h op b m)
  unfolding timed_s3_op
  timed-Moves h op b m hm = record { move = λ w. hm.move w.store }

  module _ (fuel : ℕ) (h : Handlers) where
    pub exists-Stays :
        (b : Backend) (key : Bytes) → Moves SameObject (object_exists s3 fuel h b key)
    unfolding object_exists
    exists-Stays b key = timed-Moves h _ b _ (exists-Moves s3 laws l k b key)

    pub entries-Stays :
        (b : Backend) (prefix : Bytes) → Moves SameObject (prefix_has_entries s3 fuel h b prefix)
    unfolding prefix_has_entries
    entries-Stays b prefix = timed-Moves h _ b _ (entries-Moves s3 laws l k b prefix)
