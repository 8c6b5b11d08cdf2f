-- ===== src/FileInfo.antt =====
-- internal/sftphandlers/fileinfo.go, and the sorted listings that the handlers return
pub mod Pages
use sftp2s.Prelude.{
  ℕ, zero, suc, ◌+◌, Bool, true, false, Bytes, bytes_lt, List, [], ◌∷◌, Option, none, some, ltb,
  length, get_elem?, if◌then◌else◌, ◌==◌,
}
use sftp2s.Result.{Error, eof}

-- `is_dir` is the mode: os.ModeDir | 0o755, or 0o644
pub record FileInfo : Type 0 where
  pub name : Bytes
  pub size : ℕ
  pub is_dir : Bool
  pub mod_time : ℕ

-- newDirInfo; `now` is the clock
unfoldable pub new_dir_info : ℕ → Bytes → FileInfo
new_dir_info now name = record { name = name; size = 4096; is_dir = true; mod_time = now }

-- newFileInfo; the zero time is 0
unfoldable pub new_file_info : ℕ → Bytes → ℕ → ℕ → FileInfo
new_file_info now name size mod_time = record {
  name = name;
  size = size;
  is_dir = false;
  mod_time = if mod_time == 0 then now else mod_time;
}

unfoldable pub insert_info : FileInfo → List FileInfo → List FileInfo
insert_info i [] = i ∷ []
insert_info i (j ∷ infos) =
    if bytes_lt j.name i.name then j ∷ insert_info i infos else i ∷ j ∷ infos

-- sort.Slice by name
unfoldable pub sort_infos : List FileInfo → List FileInfo
unfolding insert_info
sort_infos [] = []
sort_infos (i ∷ infos) = insert_info i (sort_infos infos)

-- the loop of ListAt: what is written to list[n:], where `room` places are left
unfoldable pub copy_from : List FileInfo → ℕ → ℕ → List FileInfo
copy_from l zero offset = []
copy_from l (suc room) offset = elim (get_elem? l offset) [
  | none ↦ []
  | some info ↦ info ∷ copy_from l room (offset + 1)
]

-- listerAt.ListAt: the entries written to a list of `size` places, and the error
unfoldable pub list_at : List FileInfo → ℕ → ℕ → List FileInfo × Option Error
unfolding copy_from
list_at l size offset =
    let out = copy_from l size offset in (out, if ltb (length out) size then some eof else none)
