-- ===== src/Path/Walk.antt =====
-- Where a path leads: its segments, followed from the root.
use mathlib.Core.List.{reverse, reverse-cons}
use sftp2s.Prelude.{
  true, ◌||◌, Bytes, bytes_eq, bytes_eq_iff, is_empty, split, split-Lacks, Lacks, List, [], ◌∷◌,
  ◌++◌, All, ◌≡◌, refl, sym, ap, ◌∙◌, subst, inl, inr, Bool-cases, if◌then◌else◌,
}
use sftp2s.Result.{ok}
use sftp2s.Path.{
  slash, dot, dotdot, step_back, clean_step, clean_segments, is_rooted, sanitize_path,
}
use sftp2s.Path.Clean.{
  Names, clean_step-Names, clean_segments-Names, rooted, sanitize_path-clean_segments,
}

-- The directory above; the root is above itself.
abbrev pub parent : List Bytes → List Bytes
parent [] = []
parent (d ∷ []) = []
parent (d ∷ e ∷ dirs) = d ∷ parent (e ∷ dirs)

-- One segment further: an empty one and `.` stay, `..` goes up, and a name goes down.
abbrev pub visit : List Bytes → Bytes → List Bytes
visit dirs p =
    if is_empty p || bytes_eq p dot
    then dirs
    else if bytes_eq p dotdot
    then parent dirs
    else dirs ++ p ∷ []

unfoldable pub walk : List Bytes → List Bytes → List Bytes
walk dirs [] = dirs
walk dirs (p ∷ ps) = walk (visit dirs p) ps

parent-append : (dirs : List Bytes) (d : Bytes) → parent (dirs ++ d ∷ []) ≡ dirs
parent-append [] d = refl
parent-append (c ∷ []) d = refl
parent-append (c ∷ e ∷ dirs) d = ap (λ ds. c ∷ ds) (parent-append (e ∷ dirs) d)

step_back-parent :
    (kept : List Bytes) → All Names kept → reverse (step_back true kept) ≡ parent (reverse kept)
unfolding step_back
step_back-parent [] h = refl
step_back-parent (p ∷ kept) h = elim (Bool-cases (bytes_eq p dotdot)) [
  | inl back ↦ absurd (h.0.not_dotdot ((bytes_eq_iff p dotdot).0 back))
  | inr name ↦ rw name (rw (reverse-cons p kept) (sym (parent-append (reverse kept) p)))
]

clean_step-visit :
    (kept : List Bytes) (p : Bytes)
    → All Names kept
    → reverse (clean_step true kept p) ≡ visit (reverse kept) p
unfolding clean_step
clean_step-visit kept p h = elim (Bool-cases (is_empty p || bytes_eq p dot)) [
  | inl skipped ↦ rw skipped refl
  | inr further ↦ elim (Bool-cases (bytes_eq p dotdot)) [
    | inl back ↦ rw (further, back) (step_back-parent kept h)
    | inr name ↦ rw (further, name) (reverse-cons p kept)
  ]
]

clean_segments-walk :
    (kept ps : List Bytes)
    → All Names kept
    → All (Lacks slash) ps
    → clean_segments true kept ps ≡ walk (reverse kept) ps
unfolding clean_segments walk
clean_segments-walk kept [] h l = refl
clean_segments-walk kept (p ∷ ps) h l =
    clean_segments-walk (clean_step true kept p) ps (clean_step-Names kept p h l.0) l.1
    ∙ ap (λ dirs. walk dirs ps) (clean_step-visit kept p h)

-- The segments of a path that begins with a slash, followed from the root.
abbrev pub followed : Bytes → List Bytes
followed p = walk [] (split slash p)

clean_segments-followed : (p : Bytes) → clean_segments true [] (split slash p) ≡ followed p
clean_segments-followed p = clean_segments-walk [] (split slash p) tt (split-Lacks slash p)

pub followed-Names : (p : Bytes) → All Names (followed p)
followed-Names p =
    subst (All Names) (clean_segments-followed p)
      (clean_segments-Names [] (split slash p) tt (split-Lacks slash p))

pub sanitize_path-followed :
    (p : Bytes) → is_rooted p ≡ true → sanitize_path p ≡ ok (rooted (followed p))
sanitize_path-followed p r =
    sanitize_path-clean_segments p r ∙ ap (λ ps. ok (rooted ps)) (clean_segments-followed p)
