-- ===== src/Vfs/Paths.antt =====
-- Resolve on cleaned paths: the first segment names the backend, and the others make the key.
use sftp2s.Prelude.{
  ℕ, Bool, false, Bytes, is_empty, trim, trim_left, trim_right, split_2, split_2-append,
  split_2-Lacks, join, Lacks, lookup, List, [], ◌∷◌, ◌++◌, All, Option, none, some, ◌≡◌, refl,
  arith, ◌==◌,
}
use sftp2s.Result.{Result, ok, err, not_exist}
use sftp2s.Storage.{Backend, slash}
use sftp2s.Path.Clean.{Names, rooted}
use sftp2s.Vfs.{Vfs, Target, root, at, resolve, find_backend}

abbrev is_slash : ℕ → Bool
is_slash x = x == slash

trim_right-Lacks : (p : Bytes) → Lacks slash p → trim_right is_slash p ≡ p
unfolding trim_right
trim_right-Lacks [] h = refl
trim_right-Lacks (x ∷ p) h = ground (arith, trim_right-Lacks p h.1)

-- Where the end stays, so does what stands before it.
trim_right-append :
    (p s : Bytes)
    → trim_right is_slash s ≡ s
    → is_empty s ≡ false
    → (trim_right is_slash (p ++ s) ≡ p ++ s) × (is_empty (p ++ s) ≡ false)
unfolding trim_right
trim_right-append [] s h f = (h, f)
trim_right-append (x ∷ p) s h f =
    let rest = trim_right-append p s h f in (ground (arith, rest.0, rest.1), refl)

join-end :
    (p : Bytes) (ps : List Bytes)
    → All Names (p ∷ ps)
    → (trim_right is_slash (join slash (p ∷ ps)) ≡ join slash (p ∷ ps))
      × (is_empty (join slash (p ∷ ps)) ≡ false)
unfolding join
join-end [] [] h = absurd (h.0.filled refl)
join-end (x ∷ p) [] h = (trim_right-Lacks (x ∷ p) h.0.whole, refl)
join-end p (q ∷ ps) h =
    let rest = join-end q ps h.1 in
    let more = trim_right-append (slash ∷ []) (join slash (q ∷ ps)) rest.0 rest.1 in
    trim_right-append p (slash ∷ join slash (q ∷ ps)) more.0 more.1

join-start :
    (p : Bytes) (ps : List Bytes)
    → All Names (p ∷ ps)
    → trim_left is_slash (join slash (p ∷ ps)) ≡ join slash (p ∷ ps)
unfolding join trim_left
join-start [] ps h = absurd (h.0.filled refl)
join-start (x ∷ p) [] h = ground (arith, h.0.whole.0)
join-start (x ∷ p) (q ∷ ps) h = ground (arith, h.0.whole.0)

trim-rooted :
    (p : Bytes) (ps : List Bytes)
    → All Names (p ∷ ps)
    → trim slash (rooted (p ∷ ps)) ≡ join slash (p ∷ ps)
unfolding trim trim_left
trim-rooted p ps h = rw (join-start p ps h) (join-end p ps h).0

-- What Resolve makes of the backend that it finds.
abbrev pub found_at : Option Backend → Bytes → Result Target
found_at none key = err not_exist
found_at (some b) key = ok (at b key)

find-parts :
    (o : Option Backend) (name : Bytes) (ps : List Bytes)
    → All Names (name ∷ ps)
    → find_backend o (split_2 slash (join slash (name ∷ ps))).1 ≡ found_at o (join slash ps)
unfolding find_backend join
find-parts none name [] h = refl
find-parts none name (p ∷ ps) h = refl
find-parts (some b) name [] h = rw (split_2-Lacks slash name h.0.whole) refl
find-parts (some b) name (p ∷ ps) h =
    rw (split_2-append slash name (join slash (p ∷ ps)) h.0.whole) refl

first-part :
    (name : Bytes) (ps : List Bytes)
    → All Names (name ∷ ps)
    → (split_2 slash (join slash (name ∷ ps))).0 ≡ name
unfolding join
first-part name [] h = rw (split_2-Lacks slash name h.0.whole) refl
first-part name (p ∷ ps) h = rw (split_2-append slash name (join slash (p ∷ ps)) h.0.whole) refl

pub resolve-root : (vfs : Vfs) → resolve vfs (rooted []) ≡ ok root
unfolding resolve trim join
resolve-root vfs = refl

pub resolve-rooted :
    (vfs : Vfs) (name : Bytes) (ps : List Bytes)
    → All Names (name ∷ ps)
    → resolve vfs (rooted (name ∷ ps)) ≡ found_at (lookup name vfs) (join slash ps)
unfolding resolve
resolve-rooted vfs name ps h =
    rw (trim-rooted name ps h, resolve)
      (rw (join-end name ps h).1
        (rw (first-part name ps h) (find-parts (lookup name vfs) name ps h)))
