-- ===== src/Auth/SshId/FileName.antt =====
-- safeFileName of internal/auth/sshid.go. The loop goes over the runes of a text: a byte that begins no
-- rune in UTF-8 is one of its own.
use sftp2s.Prelude.{
  ℕ, zero, suc, ◌-◌, Bool, true, false, ◌&&◌, ◌||◌, Bytes, [], ◌∷◌, ltb, leb, ◌==◌, if◌then◌else◌,
}

between : ℕ → ℕ → ℕ → Bool
between lo hi c = leb lo c && leb c hi

-- how many bytes are to follow a first byte
following : ℕ → ℕ
unfolding between
following c =
    if between 194 223 c
    then 1
    else if between 224 239 c
    then 2
    else if between 240 244 c
    then 3
    else 0

second_fits : ℕ → ℕ → Bool
unfolding between
second_fits c d =
    if c == 224
    then between 160 191 d
    else if c == 237
    then between 128 159 d
    else if c == 240
    then between 144 191 d
    else if c == 244
    then between 128 143 d
    else between 128 191 d

rest_fits : ℕ → Bytes → Bool
unfolding between
rest_fits zero s = true
rest_fits (suc n) [] = false
rest_fits (suc n) (d ∷ s) = between 128 191 d && rest_fits n s

-- how many bytes the rune has behind the first
unfoldable pub rune_rest : ℕ → Bytes → ℕ
unfolding following second_fits rest_fits
rune_rest c [] = 0
rune_rest c (d ∷ s) =
    if ltb 0 (following c) && (second_fits c d && rest_fits (following c - 1) s)
    then following c
    else 0

-- the condition of safeFileName
unfoldable pub is_safe : ℕ → Bool
is_safe c =
    (leb b'a' c && leb c b'z')
    || ((leb b'A' c && leb c b'Z')
        || ((leb b'0' c && leb c b'9') || (c == b'-' || (c == b'_' || c == b'.'))))

-- the loop: `skip` bytes belong to the rune before
unfoldable pub safe_from : ℕ → Bytes → Bytes
unfolding rune_rest is_safe
safe_from skip [] = []
safe_from (suc skip) (c ∷ s) = safe_from skip s
safe_from zero (c ∷ s) = (if is_safe c then c else b'_') ∷ safe_from (rune_rest c s) s

-- safeFileName
unfoldable pub safe_file_name : Bytes → Bytes
unfolding safe_from
safe_file_name s = safe_from 0 s
