-- ===== src/Fake/Frames.antt =====
-- What the fakes leave alone.
use sftp2s.Prelude.{
  Bytes, bytes_eq_iff, lookup, lookup-put, lookup-delete, List, [], ◌∷◌, Option, none, some, ◌≡◌,
  ◌≢◌, inl, inr, refl, sym, ◌∙◌, ap, In, Bool-cases, arith,
}
use sftp2s.Result.{Error, Result}
use sftp2s.S3.{Location, Stream}
use sftp2s.S3.Laws.{Apart}
use sftp2s.Fake.{
  FakeS3, Response, status, content, delete_object, delete_objects, put_object, copy_object, copied,
}
use sftp2s.Fake.Service.{Fakes, guarded, set_fake, location_eq, location_eq_iff, store_upload}

abbrev pub object : Fakes → Location → Bytes → Option Bytes
object s l j = lookup j (s l).objects

pub set_fake_frame :
    (loc : Location) (f : FakeS3) (s : Fakes) (l : Location) (j : Bytes)
    → (l ≡ loc → lookup j f.objects ≡ lookup j (s loc).objects)
    → object (set_fake loc f s) l j ≡ object s l j
set_fake_frame loc f s l j h = elim (Bool-cases (location_eq loc l)) [
  | inl same ↦
      let e = (location_eq_iff loc l).0 same in rw same (h (sym e) ∙ ap (λ x. object s x j) e)
  | inr other ↦ rw other refl
]

pub guarded_frame :
    {A : Type 0} (loc : Location) (m : FakeS3 → Result A × FakeS3) (s : Fakes) (l : Location)
    (j : Bytes)
    → (l ≡ loc → lookup j (m (s loc)).1.objects ≡ lookup j (s loc).objects)
    → object (guarded loc m s).1 l j ≡ object s l j
guarded_frame loc m s l j h = elim (Bool-cases (s loc).fail) [
  | inl down ↦ rw down refl
  | inr up ↦ simp up (set_fake_frame loc _ s l j h)
]

pub set_fake_self : (loc : Location) (f : FakeS3) (s : Fakes) → set_fake loc f s loc ≡ f
set_fake_self loc f s = rw ((location_eq_iff loc loc).1 refl)

pub put_frame :
    (f : FakeS3) (key bytes j : Bytes)
    → j ≢ key
    → lookup j (put_object f key bytes).objects ≡ lookup j f.objects
unfolding put_object
put_frame f key bytes j h = ground (arith, lookup-put key j bytes f.objects, bytes_eq_iff key j)

pub delete_frame :
    (f : FakeS3) (key j : Bytes)
    → j ≢ key
    → lookup j (delete_object f key).objects ≡ lookup j f.objects
unfolding delete_object
delete_frame f key j h = ground (arith, lookup-delete key j f.objects, bytes_eq_iff key j)

pub delete_all_frame :
    (f : FakeS3) (keys : List Bytes) (j : Bytes)
    → ¬ In j keys
    → lookup j (delete_objects f keys).objects ≡ lookup j f.objects
unfolding delete_objects
delete_all_frame f [] j h = refl
delete_all_frame f (key ∷ keys) j h =
    delete_all_frame (delete_object f key) keys j (λ i. h (inr i))
    ∙ delete_frame f key j (λ e. h (inl e))

copied_frame :
    (f : FakeS3) (dst j : Bytes) (r : Response Bytes)
    → j ≢ dst
    → lookup j (copied f dst r).1.objects ≡ lookup j f.objects
unfolding copied
copied_frame f dst j (status n) h = refl
copied_frame f dst j (content bytes) h = put_frame f dst bytes j h

pub copy_frame :
    (f : FakeS3) (src dst j : Bytes)
    → j ≢ dst
    → lookup j (copy_object f src dst).1.objects ≡ lookup j f.objects
unfolding copy_object
copy_frame f src dst j h = copied_frame f dst j _ h

pub upload_frame :
    (loc : Location) (key : Bytes) (body : Stream) (s : Fakes) (e : Option Error) (l : Location)
    (j : Bytes)
    → (l ≡ loc → j ≢ key)
    → object (store_upload loc key body s e).1 l j ≡ object s l j
upload_frame loc key body s (some e) l j h = refl
upload_frame loc key body s none l j h = elim (Bool-cases (s loc).fail) [
  | inl down ↦ rw down refl
  | inr up ↦ simp up (set_fake_frame loc _ s l j (λ q. put_frame (s loc) key body.bytes j (h q)))
]

-- The two ways to be another object, as one.
pub other_key :
    (loc : Location) (key : Bytes) (l : Location) (j : Bytes)
    → Apart loc key l j
    → l ≡ loc
    → j ≢ key
other_key loc key l j (inl far) e = absurd (far e)
other_key loc key l j (inr far) e = far
