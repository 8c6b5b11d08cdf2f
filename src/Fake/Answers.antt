-- ===== src/Fake/Answers.antt =====
-- What the answers of the fakes say about their objects.
use sftp2s.Prelude.{
  Bytes, lookup, lookup-put_self, lookup-delete, lookup-delete_self, List, [], ◌∷◌, none, some, ◌≡◌,
  ◌≢◌, inl, inr, ◌∙◌, ap, In, Bool-cases, Option-cases, arith, length, Lacks,
}
use sftp2s.Result.{Error, Result, ok, err, failed, not_found}
use sftp2s.S3.{Location, Head}
use sftp2s.Storage.{slash}
use sftp2s.Storage.Operations.{copy_source}
use sftp2s.Fake.{
  FakeS3, get_object, delete_object, delete_objects, put_object, copy_object, copied, copy_from,
}
use sftp2s.Fake.Escapes.{copy_source_key}
use sftp2s.Fake.Frames.{object, set_fake_self}
use sftp2s.Fake.Service.{Fakes, guarded, head_answer, copy_answer, store_upload, fake_s3}

-- A call that returned reached the objects.
pub guarded-ok :
    {A : Type 0} (loc : Location) (m : FakeS3 → Result A × FakeS3) (s : Fakes) (a : A)
    → (guarded loc m s).0 ≡ ok a
    → ((m (s loc)).0 ≡ ok a) × ((guarded loc m s).1 loc ≡ (m (s loc)).1)
guarded-ok loc m s a h = elim (Bool-cases (s loc).fail) [
  | inl down ↦ absurd (ground arith)
  | inr up ↦ (simp up at h, simp up (set_fake_self loc _ s))
]

-- HEAD
pub head_answer-ok :
    (f : FakeS3) (key : Bytes) (out : Head)
    → head_answer (get_object f key) ≡ ok out
    → (c : Bytes) × (lookup key f.objects ≡ some c) × (out.content_length ≡ length c)
unfolding get_object
head_answer-ok f key out h = elim (Option-cases (lookup key f.objects)) [
  | inl gone ↦ absurd (ground arith)
  | inr (c, found) ↦ (c, found, ground arith)
]

head_answer-err :
    (f : FakeS3) (key : Bytes) (e : Error)
    → head_answer (get_object f key) ≡ err e
    → (lookup key f.objects ≡ none) × (e ≡ not_found)
unfolding get_object
head_answer-err f key e h = ground arith

pub head_missing :
    (loc : Location) (key : Bytes) (s : Fakes) (e : Error)
    → (fake_s3.head_object loc key s).0 ≡ err e
    → e ≢ failed 500
    → (object s loc key ≡ none) × (e ≡ not_found)
head_missing loc key s e h ne = elim (Bool-cases (s loc).fail) [
  | inl down ↦ absurd (ground arith)
  | inr up ↦ head_answer-err (s loc) key e (simp up at h)
]

-- DELETE
pub delete_object-gone :
    (f : FakeS3) (key : Bytes) → lookup key (delete_object f key).objects ≡ none
unfolding delete_object
delete_object-gone f key = lookup-delete_self key f.objects

delete_object-stays_gone :
    (f : FakeS3) (key j : Bytes)
    → lookup j f.objects ≡ none
    → lookup j (delete_object f key).objects ≡ none
unfolding delete_object
delete_object-stays_gone f key j h = ground (arith, lookup-delete key j f.objects)

delete_objects-stays_gone :
    (f : FakeS3) (keys : List Bytes) (j : Bytes)
    → lookup j f.objects ≡ none
    → lookup j (delete_objects f keys).objects ≡ none
unfolding delete_objects
delete_objects-stays_gone f [] j h = h
delete_objects-stays_gone f (key ∷ keys) j h =
    delete_objects-stays_gone (delete_object f key) keys j (delete_object-stays_gone f key j h)

pub delete_objects-gone :
    (f : FakeS3) (keys : List Bytes) (j : Bytes)
    → In j keys
    → lookup j (delete_objects f keys).objects ≡ none
unfolding delete_objects
delete_objects-gone f [] j i = absurd i
delete_objects-gone f (key ∷ keys) j (inl e) =
    delete_objects-stays_gone (delete_object f key) keys j (rw e (delete_object-gone f key))
delete_objects-gone f (key ∷ keys) j (inr i) = delete_objects-gone (delete_object f key) keys j i

-- PUT
pub put_object_self :
    (f : FakeS3) (key bytes : Bytes) → lookup key (put_object f key bytes).objects ≡ some bytes
unfolding put_object
put_object_self f key bytes = lookup-put_self key bytes f.objects

copied-ok :
    (f : FakeS3) (src dst : Bytes)
    → copy_answer (copied f dst (get_object f src)).0 ≡ ok tt
    → lookup dst (copied f dst (get_object f src)).1.objects ≡ lookup src f.objects
unfolding copied get_object
copied-ok f src dst h = elim (Option-cases (lookup src f.objects)) [
  | inl gone ↦ absurd (ground arith)
  | inr (c, found) ↦ ground (arith, put_object_self f dst c)
]

pub copy_object-ok :
    (f : FakeS3) (bucket src dst : Bytes)
    → Lacks slash bucket
    → copy_answer (copy_object f (copy_source bucket src) dst).0 ≡ ok tt
    → lookup dst (copy_object f (copy_source bucket src) dst).1.objects ≡ lookup src f.objects
unfolding copy_object copy_from
copy_object-ok f bucket src dst h e =
    let k = copy_source_key bucket src h in rw k (copied-ok f src dst (rw k at e))

pub upload-ok :
    (loc : Location) (key bytes : Bytes) (s : Fakes)
    → (store_upload loc key (record { bytes = bytes; read_error = none }) s none).0.result ≡ ok tt
    → object (store_upload loc key (record { bytes = bytes; read_error = none }) s none).1 loc key
      ≡ some bytes
upload-ok loc key bytes s h = elim (Bool-cases (s loc).fail) [
  | inl down ↦ absurd (ground arith)
  | inr up ↦
      simp up
        (ap (λ f. lookup key f.objects) (set_fake_self loc _ s) ∙ put_object_self (s loc) key bytes)
]
