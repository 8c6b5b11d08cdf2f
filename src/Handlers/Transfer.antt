-- ===== src/Handlers/Transfer.antt =====
-- handlers.go: Fileread and Filewrite, the reader that fetches byte ranges and the writer that
-- buffers an upload in a temporary file. A sum of the source is one of int64: WriteAt takes it as the
-- word of 64 bits that it is. The offset of a read is not negative, and behind the check against the size
-- its sums do not wrap.
pub mod Writes
pub mod Uploads
use sftp2s.Prelude.{
  ℕ, zero, suc, ◌+◌, ◌-◌, Bool, true, false, ◌&&◌, ◌||◌, not, Bytes, bytes_eq, is_empty, codes,
  length, take, drop, List, [], ◌∷◌, ◌++◌, Option, none, some, ltb, leb, ◌==◌, if◌then◌else◌,
}
use Prim.Native.Nat.{min, ◌%◌}
use sftp2s.Result.{Error, message, not_exist, op_unsupported, no_such_key, eof, Result, ok, err}
use sftp2s.Result.Action.{Action, pure, fail, lift, attempt, ◌>>=◌, ◌>>◌}
use sftp2s.Metrics.{Metrics, add_upload_bytes, add_download_bytes}
use sftp2s.Permissions.{require_read, require_write}
use sftp2s.S3.{S3, Head, Stream, Object}
use sftp2s.Storage.{Backend, object_key}
use sftp2s.Storage.Operations.{is_missing}
use sftp2s.Vfs.{Target, root, at}
use sftp2s.Handlers.{Handlers, Request, World, resolve, timed_s3_op, record_s3_op, succeeded}

-- s3Reader; `handlers` stands for the fields metrics and maxReadSize
pub record Reader : Type 0 where
  pub backend : Backend
  pub key : Bytes
  pub size : ℕ
  pub handlers : Handlers

-- What a ReadAt or WriteAt returns: what was transferred, and the error.
pub record Transferred (A : Type 0) : Type 0 where
  pub count : A
  pub error : Option Error

-- io.ReadFull into `want` bytes, where ReadAt turns ErrUnexpectedEOF into EOF
unfoldable pub read_full : Stream → ℕ → Transferred Bytes
read_full body want = record {
  count = take want body.bytes;
  error =
      if leb want (length body.bytes)
      then none
      else elim body.read_error [ none ↦ some eof | some e ↦ some e ];
}

-- The end of the range of a read, exclusive: one more than the `end` of the source.
unfoldable pub range_stop : ℕ → ℕ → ℕ → ℕ
range_stop off len size = if leb (off + len) size then off + len else size

-- the error of GetObject as ReadAt returns it
abbrev read_failure : Error → Error
read_failure no_such_key = not_exist
read_failure e = e

module _ (s3 : S3) where
  open s3 use {Store}

  abbrev refuse {ℓ} : {A : Type 0} {W : Type ℓ} → A → Error → W → Transferred A × W
  refuse a e w = (record { count = a; error = some e }, w)

  after_get : Reader → ℕ → Result Object → World Store → Transferred Bytes × World Store
  unfolding read_full
  after_get r want (err e) w = refuse [] (read_failure e) w
  after_get r want (ok out) w =
      let t = read_full out.body want in
      (
        t,
        record w {
          metrics =
              if r.handlers.metered && ltb 0 (length t.count)
              then add_download_bytes (length t.count) w.metrics
              else w.metrics;
        },
      )

  -- The call of GetObject for the bytes from `off` up to `stop`, and what is made of its answer.
  fetch : Reader → ℕ → ℕ → World Store → Transferred Bytes × World Store
  unfolding after_get
  fetch r off stop w =
      let g =
        timed_s3_op r.handlers (codes "GetObject") r.backend
          (s3.get_object r.backend.location r.key (some (off, stop - 1))) w in
      after_get r (stop - off) g.0 g.1

  -- s3Reader.ReadAt, for a slice of `len` bytes
  unfoldable pub read_at : Reader → ℕ → ℕ → World Store → Transferred Bytes × World Store
  unfolding fetch range_stop
  read_at r len off w =
      if ltb 0 r.handlers.max_read_size && ltb r.handlers.max_read_size len
      then refuse [] (message "read exceeds maximum allowed size") w
      else if leb r.size off
      then refuse [] eof w
      else if leb (range_stop off len r.size) off
      then refuse [] eof w
      else fetch r off (range_stop off len r.size) w

-- What Fileread returns: the reader, or a RateLimitedReader around it.
pub data FileReader : Type 0 where
  plain : Reader → FileReader
  limited : ℕ → Reader → FileReader

abbrev limit_reader : Option ℕ → Reader → FileReader
limit_reader none r = plain r
limit_reader (some lim) r = limited lim r

module _ (s3 : S3) (h : Handlers) where
  open s3 use {Store}

  open_reader : Backend → Bytes → Result Head → Action (World Store) FileReader
  open_reader b key (ok head) = pure (
      limit_reader h.rate_limiter
        (record { backend = b; key = object_key b key; size = head.content_length; handlers = h }))
  open_reader b key (err e) = if is_missing e then fail not_exist else fail e

  read_target : Target → Action (World Store) FileReader
  unfolding open_reader is_missing
  read_target root = fail (message "cannot read directory")
  read_target (at b key) = if is_empty key then fail (message "cannot read directory") else do
    r ←
        attempt
          (timed_s3_op h (codes "HeadObject") b (s3.head_object b.location (object_key b key)))
    open_reader b key r

  -- S3Handlers.Fileread
  unfoldable pub fileread : Request → Action (World Store) FileReader
  unfolding read_target
  fileread r = do
    require_read h.perms
    if not (bytes_eq r.method (codes "Get"))
        then fail op_unsupported
        else do target ← lift (resolve h r.filepath); read_target target

-- s3Writer; `file` holds the bytes of the temporary file, and `removed` says that it is deleted
pub record Writer : Type 0 where
  pub backend : Backend
  pub key : Bytes
  pub file : Bytes
  pub size : ℕ
  pub closed : Bool
  pub removed : Bool
  pub handlers : Handlers

unfoldable pub zeros : ℕ → Bytes
zeros zero = []
zeros (suc n) = 0 ∷ zeros n

-- A write to a file: a gap behind its end is filled with zeros.
unfoldable pub write_file : Bytes → Bytes → ℕ → Bytes
unfolding zeros
write_file file p off =
    take off file ++ zeros (off - length file) ++ p ++ drop (off + length p) file

-- How a call of os.File.WriteAt goes: to the end, or up to some bytes and an error.
pub data Disk : Type 0 where
  writes : Disk
  stops : ℕ → Error → Disk

-- The sum of two numbers of int64, as a word of 64 bits.
abbrev pub int64_add : ℕ → ℕ → ℕ
int64_add a b = (a + b) % 18446744073709551616

-- a > b for such words, where b is not negative; a word from 2^63 on is a negative number.
abbrev pub int64_gt : ℕ → ℕ → Bool
int64_gt a b = ltb b a && ltb a 9223372036854775808

-- s3Writer.WriteAt, for an offset that is a word of 64 bits. After an error the size is left as it was.
unfoldable pub write_at : Disk → Writer → Bytes → ℕ → Transferred ℕ × Writer
unfolding write_file
write_at disk w p off =
    if ltb 0 w.handlers.max_file_size
      && int64_gt (int64_add off (length p)) w.handlers.max_file_size
    then (record { count = 0; error = some (message "file exceeds maximum allowed size") }, w)
    else elim disk [
      | writes ↦ (
        record { count = length p; error = none },
        record w {
          file = if is_empty p then w.file else write_file w.file p off;
          size =
              if int64_gt (int64_add off (length p)) w.size
              then int64_add off (length p)
              else w.size;
        },
      )
      | stops n e ↦ (
        record { count = n; error = some e },
        record w {
          file = if is_empty (take n p) then w.file else write_file w.file (take n p) off;
        },
      )
    ]

module _ (s3 : S3) where
  open s3 use {Store}

  -- the upload of Close, behind the seek
  finish_upload : Writer → World Store → Result (Unit {0}) × World Store
  finish_upload w world =
      let u =
        s3.upload w.backend.location w.key (record { bytes = w.file; read_error = none })
          world.store in
      let m = record_s3_op w.handlers (codes "PutObject") w.backend u.0.result world.metrics in
      (
        u.0.result,
        record world {
          store = u.1;
          metrics =
              if w.handlers.metered && succeeded u.0.result then add_upload_bytes w.size m else m;
        },
      )

  -- s3Writer.Close; `seek` is the answer of the seek to the start
  unfoldable pub close :
      Result (Unit {0}) → Writer → World Store → (Result (Unit {0}) × World Store) × Writer
  unfolding finish_upload
  close seek w world = if w.closed then ((ok tt, world), w) else (
    elim seek [ ok _ ↦ finish_upload w world | err e ↦ (err e, world) ],
    record w { closed = true; removed = true },
  )

-- What Filewrite returns: the writer, or a RateLimitedWriter around it, which has the one method
-- WriteAt.
pub data FileWriter : Type 0 where
  plain : Writer → FileWriter
  limited : ℕ → Writer → FileWriter

abbrev limit_writer : Option ℕ → Writer → FileWriter
limit_writer none w = FileWriter.plain w
limit_writer (some lim) w = FileWriter.limited lim w

-- The value as an io.Closer, where it is one: what package sftp looks for when a client closes the
-- file.
unfoldable pub as_closer : FileWriter → Option Writer
as_closer (FileWriter.plain w) = some w
as_closer (FileWriter.limited lim w) = none

module _ (h : Handlers) where
  write_target : {W : Type 0} → Result (Unit {0}) → Target → Action W FileWriter
  write_target created root = fail (message "cannot write directory")
  write_target created (at b key) =
      if is_empty key then fail (message "cannot write directory") else do
        _ ← lift created
        pure (
            limit_writer h.rate_limiter (record {
              backend = b;
              key = object_key b key;
              file = [];
              size = 0;
              closed = false;
              removed = false;
              handlers = h;
            }))

  -- S3Handlers.Filewrite; `created` is the answer of os.CreateTemp
  unfoldable pub filewrite : {W : Type 0} → Result (Unit {0}) → Request → Action W FileWriter
  unfolding write_target
  filewrite created r = do
    require_write h.perms
    if not (bytes_eq r.method (codes "Put"))
        then fail op_unsupported
        else do target ← lift (resolve h r.filepath); write_target created target
