-- ===== src/Handlers/Transfer/Writes.antt =====
-- handlers.go: the temporary file of an upload, over any sequence of WriteAt calls.
use sftp2s.Prelude.{
  ℕ, zero, suc, ◌+◌, ◌-◌, ◌<◌, ◌≤◌, false, Bytes, length, length-append, length-take, length-drop,
  take, drop, List, [], ◌∷◌, ◌++◌, ◌≡◌, refl, arith, All,
}
use sftp2s.Result.{Error}
use sftp2s.Storage.{Backend}
use sftp2s.Handlers.{Handlers}
use sftp2s.Handlers.Transfer.{Disk, writes, stops, Writer, zeros, write_file, write_at}

-- One call of WriteAt, with how the call of the file goes.
pub record Write : Type 0 where
  pub disk : Disk
  pub bytes : Bytes
  pub offset : ℕ

-- The end of the write is a number of int64, or the file refuses the write: os.File.WriteAt takes no
-- negative offset, and a file system no byte behind the end of its largest file.
pub data Fits : Write → Type 0 where
  in_range : {x : Write} → x.offset + length x.bytes < 9223372036854775808 → Fits x
  refused :
      {p : Bytes} {off : ℕ} (e : Error)
      → Fits (record { disk = stops 0 e; bytes = p; offset = off })

unfoldable pub write_all : Writer → List Write → Writer
write_all w [] = w
write_all w (x ∷ xs) = write_all (write_at x.disk w x.bytes x.offset).1 xs

pub length-zeros : (n : ℕ) → length (zeros n) ≡ n
unfolding zeros
length-zeros zero = refl
length-zeros (suc n) = omega (arith, length-zeros n)

length-overwrite :
    (file p : Bytes) (off max : ℕ)
    → length file ≤ max
    → off + length p ≤ max
    → length (take off file ++ zeros (off - length file) ++ p ++ drop (off + length p) file) ≤ max
length-overwrite file p off max f h =
    let gap = zeros (off - length file) in
    let end = drop (off + length p) file in
    rw
      (
        length-append (take off file ++ gap ++ p) end,
        length-append (take off file ++ gap) p,
        length-append (take off file) gap,
      )
      (omega (
        arith,
        f,
        h,
        length-take off file,
        length-zeros (off - length file),
        length-drop (off + length p) file,
      ))

length-write_file :
    (file p : Bytes) (off max : ℕ)
    → length file ≤ max
    → off + length p ≤ max
    → length (write_file file p off) ≤ max
unfolding write_file
length-write_file file p off max f h = length-overwrite file p off max f h

-- Neither the file nor the size that is counted exceeds the limit.
pub record Within (max : ℕ) (w : Writer) : Type 0 where
  pub limit : w.handlers.max_file_size ≡ max
  pub file : length w.file ≤ max
  pub size : w.size ≤ max

write_at-Within :
    (max : ℕ) (disk : Disk) (w : Writer) (p : Bytes) (off : ℕ)
    → 0 < max
    → off + length p < 9223372036854775808
    → Within max w
    → Within max (write_at disk w p off).1
unfolding write_at
write_at-Within max writes w p off pos small h = record {
  limit = ground arith;
  file = ground (arith, h.file, h.limit, small, length-write_file w.file p off max h.file);
  size = ground (arith, h.size, h.limit, small);
}
write_at-Within max (stops n e) w p off pos small h = record {
  limit = ground arith;
  file = ground (
    arith,
    h.file,
    h.limit,
    small,
    length-write_file w.file (take n p) off max h.file,
    length-take n p,
  );
  size = ground (arith, h.size, h.limit);
}

write-Within :
    (max : ℕ) (x : Write) (w : Writer)
    → 0 < max
    → Fits x
    → Within max w
    → Within max (write_at x.disk w x.bytes x.offset).1
unfolding write_at
write-Within max x w pos (in_range small) h =
    write_at-Within max x.disk w x.bytes x.offset pos small h
write-Within max _ w pos (refused {p} {off} e) h = record {
  limit = ground (arith, h.limit);
  file = ground (arith, h.file);
  size = ground (arith, h.size);
}

write_all-Within_from :
    (max : ℕ) (xs : List Write) (w : Writer)
    → 0 < max
    → All Fits xs
    → Within max w
    → Within max (write_all w xs)
unfolding write_all
write_all-Within_from max [] w pos fits h = h
write_all-Within_from max (x ∷ xs) w pos fits h =
    write_all-Within_from max xs _ pos fits.1 (write-Within max x w pos fits.0 h)

-- The writer that Filewrite returns.
abbrev pub new_writer : Backend → Bytes → Handlers → Writer
new_writer b key h = record {
  backend = b;
  key = key;
  file = [];
  size = 0;
  closed = false;
  removed = false;
  handlers = h;
}

-- With a limit on the size of a file, whatever is written to a new upload and however the calls of
-- the file go, neither the temporary file nor the counted size exceeds the limit. The end of each write
-- is below 2^63, or the file refuses the write.
pub write_all_bounded :
    (b : Backend) (key : Bytes) (h : Handlers) (xs : List Write)
    → 0 < h.max_file_size
    → All Fits xs
    → (length (write_all (new_writer b key h) xs).file ≤ h.max_file_size)
      × ((write_all (new_writer b key h) xs).size ≤ h.max_file_size)
write_all_bounded b key h xs pos fits =
    let r =
      write_all-Within_from h.max_file_size xs (new_writer b key h) pos fits
        (record { limit = refl; file = omega arith; size = omega arith }) in
    (r.file, r.size)
