-- ===== src/Path.antt =====
-- Go's path.Clean and path.Base, by segments, and sanitizePath of internal/sftphandlers/handlers.go.
pub mod Clean
pub mod Walk
use sftp2s.Prelude.{
  ℕ, Bool, true, false, ◌&&◌, ◌||◌, not, Bytes, codes, bytes_eq, is_empty, split, join, trim_right,
  List, [], ◌∷◌, ◌++◌, Option, none, some, if◌then◌else◌, ◌==◌,
}
use mathlib.Core.List.{reverse}
use sftp2s.Result.{Error, message, Result, ok, err}

abbrev pub slash : ℕ
slash = b'/'

abbrev pub dot : Bytes
dot = b'.' ∷ []

abbrev pub dotdot : Bytes
dotdot = b'.' ∷ b'.' ∷ []

-- A segment `..`: it drops the segment before it, is kept where there is none to drop, and is
-- lost at the root. The segments kept so far stand last first.
unfoldable pub step_back : Bool → List Bytes → List Bytes
step_back rooted [] = if rooted then [] else dotdot ∷ []
step_back rooted (p ∷ kept) = if bytes_eq p dotdot then dotdot ∷ p ∷ kept else kept

unfoldable pub clean_step : Bool → List Bytes → Bytes → List Bytes
unfolding step_back
clean_step rooted kept p =
    if is_empty p || bytes_eq p dot
    then kept
    else if bytes_eq p dotdot
    then step_back rooted kept
    else p ∷ kept

unfoldable pub clean_segments : Bool → List Bytes → List Bytes → List Bytes
unfolding clean_step
clean_segments rooted kept [] = reverse kept
clean_segments rooted kept (p ∷ ps) = clean_segments rooted (clean_step rooted kept p) ps

unfoldable pub is_rooted : Bytes → Bool
is_rooted [] = false
is_rooted (c ∷ s) = c == slash

unfoldable pub render : Bool → List Bytes → Bytes
render true ps = slash ∷ join slash ps
render false [] = dot
render false (p ∷ ps) = join slash (p ∷ ps)

-- path.Clean
unfoldable pub clean : Bytes → Bytes
unfolding clean_segments is_rooted render
clean s = render (is_rooted s) (clean_segments (is_rooted s) [] (split slash s))

unfoldable pub has_dotdot : List Bytes → Bool
has_dotdot [] = false
has_dotdot (p ∷ ps) = bytes_eq p dotdot || has_dotdot ps

-- sanitizePath
unfoldable pub sanitize_path : Bytes → Result Bytes
unfolding has_dotdot
sanitize_path p =
    if has_dotdot (split slash (clean p)) then err (message "invalid path") else ok (clean p)

abbrev last_segment : List Bytes → Bytes
last_segment [] = []
last_segment (p ∷ []) = p
last_segment (p ∷ q ∷ ps) = last_segment (q ∷ ps)

base_of : Bytes → Bytes
base_of [] = slash ∷ []
base_of (c ∷ s) = last_segment (split slash (c ∷ s))

-- path.Base
unfoldable pub base : Bytes → Bytes
unfolding base_of
base [] = dot
base (c ∷ s) = base_of (trim_right (λ x. x == slash) (c ∷ s))
