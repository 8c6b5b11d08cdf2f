-- ===== src/Path/Clean.antt =====
-- What a cleaned path looks like.
use mathlib.Core.List.{reverse, reverse-cons}
use sftp2s.Prelude.{
  true, false, ◌||◌, Bytes, bytes_eq, bytes_eq_iff, is_empty, split, join, split-Lacks, split-join,
  split-cons_sep, Lacks, List, [], ◌∷◌, All, All-append, ◌≡◌, ◌≢◌, refl, ap, inl, inr, Bool-cases,
  arith,
}
use sftp2s.Result.{ok}
use sftp2s.Path.{
  slash, dot, dotdot, step_back, clean_step, clean_segments, is_rooted, clean, render, has_dotdot,
  sanitize_path,
}

-- A segment that names a file or directory: not empty, not `.` and not `..`, with no slash in it.
pub record Names (p : Bytes) : Type 0 where
  pub filled : p ≢ []
  pub not_dot : p ≢ dot
  pub not_dotdot : p ≢ dotdot
  pub whole : Lacks slash p

step_back-Names : (kept : List Bytes) → All Names kept → All Names (step_back true kept)
unfolding step_back
step_back-Names [] h = tt
step_back-Names (p ∷ kept) h = elim (Bool-cases (bytes_eq p dotdot)) [
  | inl back ↦ absurd (h.0.not_dotdot ((bytes_eq_iff p dotdot).0 back))
  | inr name ↦ rw name h.1
]

pub clean_step-Names :
    (kept : List Bytes) (p : Bytes)
    → All Names kept
    → Lacks slash p
    → All Names (clean_step true kept p)
unfolding clean_step
clean_step-Names kept p h l = elim (Bool-cases (is_empty p || bytes_eq p dot)) [
  | inl skipped ↦ rw skipped h
  | inr kept' ↦ elim (Bool-cases (bytes_eq p dotdot)) [
    | inl back ↦ rw (kept', back) (step_back-Names kept h)
    | inr name ↦
        rw (kept', name)
          (
            record {
              filled = λ e. absurd (ground arith);
              not_dot = λ e. absurd (ground (arith, bytes_eq_iff p dot));
              not_dotdot = λ e. absurd (ground (arith, bytes_eq_iff p dotdot));
              whole = l;
            },
            h,
          )
  ]
]

All-reverse : (P : Bytes → Type 0) (ps : List Bytes) → All P ps → All P (reverse ps)
All-reverse P [] h = tt
All-reverse P (p ∷ ps) h =
    rw (reverse-cons p ps) (All-append P (reverse ps) (p ∷ []) (All-reverse P ps h.1) (h.0, tt))

pub clean_segments-Names :
    (kept ps : List Bytes)
    → All Names kept
    → All (Lacks slash) ps
    → All Names (clean_segments true kept ps)
unfolding clean_segments
clean_segments-Names kept [] h l = All-reverse Names kept h
clean_segments-Names kept (p ∷ ps) h l =
    clean_segments-Names (clean_step true kept p) ps (clean_step-Names kept p h l.0) l.1

Names-Lacks : (ps : List Bytes) → All Names ps → All (Lacks slash) ps
Names-Lacks [] h = tt
Names-Lacks (p ∷ ps) h = (h.0.whole, Names-Lacks ps h.1)

has_dotdot-Names : (ps : List Bytes) → All Names ps → has_dotdot ps ≡ false
unfolding has_dotdot
has_dotdot-Names [] h = refl
has_dotdot-Names (p ∷ ps) h =
    ground (arith, h.0.not_dotdot, bytes_eq_iff p dotdot, has_dotdot-Names ps h.1)

-- A path from the root, of segments that name something.
abbrev pub rooted : List Bytes → Bytes
rooted ps = slash ∷ join slash ps

rooted-has_dotdot : (ps : List Bytes) → All Names ps → has_dotdot (split slash (rooted ps)) ≡ false
unfolding bytes_eq
rooted-has_dotdot [] h = unfold join split has_dotdot in refl
rooted-has_dotdot (p ∷ ps) h =
    rw (split-cons_sep slash (join slash (p ∷ ps)))
      (rw (split-join slash p ps (Names-Lacks (p ∷ ps) h)) (skip (has_dotdot-Names (p ∷ ps) h)))
  where
    skip : has_dotdot (p ∷ ps) ≡ false → has_dotdot ([] ∷ p ∷ ps) ≡ false
    skip e = unfold has_dotdot in ground arith

pub clean-rooted :
    (p : Bytes) → is_rooted p ≡ true → clean p ≡ rooted (clean_segments true [] (split slash p))
unfolding clean render
clean-rooted p r = ap (λ b. render b (clean_segments b [] (split slash p))) r

pub sanitize_path-clean_segments :
    (p : Bytes)
    → is_rooted p ≡ true
    → sanitize_path p ≡ ok (rooted (clean_segments true [] (split slash p)))
unfolding sanitize_path
sanitize_path-clean_segments p r =
    let names = clean_segments-Names [] (split slash p) tt (split-Lacks slash p) in
    rw (clean-rooted p r, sanitize_path)
      (ground (arith, rooted-has_dotdot (clean_segments true [] (split slash p)) names))

-- A path that begins with a slash is never refused, and is cleaned to one whose segments all name
-- something: none of them is empty, `.` or `..`.
pub sanitize_path-rooted :
    (p : Bytes)
    → is_rooted p ≡ true
    → (ps : List Bytes) × All Names ps × (sanitize_path p ≡ ok (rooted ps))
sanitize_path-rooted p r =
    let names = clean_segments-Names [] (split slash p) tt (split-Lacks slash p) in
    (clean_segments true [] (split slash p), names, sanitize_path-clean_segments p r)
