-- ===== src/Fake/Lawful.antt =====
-- The fakes behave as S3 is documented to.
use sftp2s.Prelude.{
  ℕ, ◌<◌, true, false, not, Bytes, lookup, List, [], Option, none, some, ◌≡◌, ◌≢◌, refl, sym, ◌∙◌,
  ap, inl, inr, ◌⊎◌, In, StartsWith, Lacks, subst, Bool-cases, arith, is_empty, if◌then◌else◌,
}
use sftp2s.Result.{ok, not_found, no_such_key, failed, ok-injective}
use sftp2s.Storage.{slash}
use sftp2s.Storage.Operations.{copy_source}
use sftp2s.S3.{Location, Page}
use sftp2s.S3.Laws.{S3Laws}
use sftp2s.Fake.Service.{
  Fakes, FakePaginator, fake_s3, list_all, empty_page, ask_head, ask_get, ask_list, ask_copy,
  ask_delete, ask_delete_all, ask_put, ask_page,
}
use sftp2s.Fake.Frames
use sftp2s.Fake.Frames.{object, guarded_frame, other_key}
use sftp2s.Fake.Answers
use sftp2s.Fake.Answers.{guarded-ok}
use sftp2s.Fake.Listings.{
  keys_of, listed, list_objects_sound, list_objects_complete, listed-StartsWith, StartsWith-listed,
  list_objects-entries, no_entries,
}

abbrev pending : FakePaginator → Fakes → List Bytes
pending p s = if p.done then [] else keys_of (list_all p.location p.prefix p.delimiter s)

abbrev pages_left : FakePaginator → Fakes → ℕ
pages_left p s = if p.done then 0 else 1

-- A key waits to be listed if the page is still to come, and its object is there and under Contents.
abbrev Waits : FakePaginator → Fakes → Bytes → Type 0
Waits p s j =
    (p.done ≡ false) × (listed p.prefix p.delimiter j ≡ true) × (object s p.location j ≢ none)

pending→Waits : (p : FakePaginator) (s : Fakes) (j : Bytes) → In j (pending p s) → Waits p s j
pending→Waits p s j i = elim (Bool-cases p.done) [
  | inl done ↦ absurd (simp done at i)
  | inr open' ↦
      elim (list_objects_sound p.prefix p.delimiter empty_page (s p.location).objects j
        (simp open' at i)) [ inl h ↦ absurd h | inr (l, found) ↦ (open', l, found) ]
]

Waits→pending : (p : FakePaginator) (s : Fakes) (j : Bytes) → Waits p s j → In j (pending p s)
Waits→pending p s j (open', l, found) = subst (In j) (simp open') (
    list_objects_complete p.prefix p.delimiter empty_page (s p.location).objects j (inr (l, found)))

pub pending_prefix :
    (p : FakePaginator) (s : Fakes) (j : Bytes) → In j (pending p s) → StartsWith p.prefix j
pending_prefix p s j i = listed-StartsWith p.prefix p.delimiter j (pending→Waits p s j i).1

pub pending_stable :
    (p : FakePaginator) (s t : Fakes)
    → ((j : Bytes) → StartsWith p.prefix j → object t p.location j ≡ object s p.location j)
    → ((j : Bytes) → In j (pending p s) → In j (pending p t)) × (pages_left p t ≡ pages_left p s)
pending_stable p s t same = (
  λ j i.
      let w = pending→Waits p s j i in
      Waits→pending p t j (w.0, w.1, λ e. w.2 (sym (same j (pending_prefix p s j i)) ∙ e)),
  refl,
)

pub no_more_pages :
    (p : FakePaginator) (s : Fakes) (j : Bytes) → not p.done ≡ false → ¬ In j (pending p s)
no_more_pages p s j h i = absurd (ground (arith, (pending→Waits p s j i).0))

pub new_complete :
    (loc : Location) (prefix : Bytes) (s : Fakes) (j c : Bytes)
    → StartsWith prefix j
    → object s loc j ≡ some c
    → In j (pending (fake_s3.new_paginator loc prefix none) s)
new_complete loc prefix s j c u e =
    Waits→pending _ s j (refl, StartsWith-listed prefix j u, λ q. absurd (ground arith))

pub next_page_ok :
    (p q : FakePaginator) (s : Fakes) (page : Page)
    → not p.done ≡ true
    → (fake_s3.next_page p s).0 ≡ ok (page, q)
    → ((j : Bytes) → In j (keys_of page) → In j (pending p s))
      × ((j : Bytes) → In j (pending p s) → In j (keys_of page) ⊎ In j (pending q s))
      × (pages_left q s < pages_left p s)
      × (q.location ≡ p.location)
      × (q.prefix ≡ p.prefix)
next_page_ok p q s page more h =
    let g = ok-injective (guarded-ok p.location (ask_page p) s (page, q) h).0 in
    let open' : p.done ≡ false = ground arith in
    let e : list_all p.location p.prefix p.delimiter s ≡ page = ap (λ x. x.0) g in
    let d : record p { done = true } ≡ q = ap (λ x. x.1) g in
    (
      λ j i. simp open' (subst (λ x. In j (keys_of x)) (sym e) i),
      λ j i. inl (subst (λ x. In j (keys_of x)) e (simp open' at i)),
      simp open' (subst (λ x. pages_left x s < 1) d (omega arith)),
      ap (λ x. x.location) (sym d),
      ap (λ x. x.prefix) (sym d),
    )

pub delete_all_ok :
    (loc : Location) (keys failed : List Bytes) (s : Fakes) (j : Bytes)
    → (fake_s3.delete_objects loc keys s).0 ≡ ok failed
    → In j keys
    → (object (fake_s3.delete_objects loc keys s).1 loc j ≡ none) ⊎ In j failed
delete_all_ok loc keys undeleted s j h i = inl (
    ap (λ f. lookup j f.objects) (guarded-ok loc (ask_delete_all keys) s undeleted h).1
    ∙ Answers.delete_objects-gone (s loc) keys j i)

pub list_empty :
    (loc : Location) (prefix : Bytes) (d : Option ℕ) (s : Fakes) (page : Page) (j : Bytes)
    → (fake_s3.list_objects loc prefix d 1 s).0 ≡ ok page
    → is_empty page.common_prefixes ≡ true
    → is_empty page.contents ≡ true
    → StartsWith prefix j
    → object s loc j ≡ none
list_empty loc prefix d s page j h e f u =
    (list_objects-entries prefix d empty_page (s loc).objects j
      (subst (λ x. no_entries x ≡ true)
        (sym (ok-injective (guarded-ok loc (ask_list prefix d) s page h).0)) (ground arith))
      u).1

pub copy_ok :
    (loc : Location) (src dst : Bytes) (s : Fakes)
    → Lacks slash loc.bucket
    → (fake_s3.copy_object loc (copy_source loc.bucket src) dst s).0 ≡ ok tt
    → object (fake_s3.copy_object loc (copy_source loc.bucket src) dst s).1 loc dst
      ≡ object s loc src
copy_ok loc src dst s u h =
    let g = guarded-ok loc (ask_copy (copy_source loc.bucket src) dst) s tt h in
    ap (λ f. lookup dst f.objects) g.1 ∙ Answers.copy_object-ok (s loc) loc.bucket src dst u g.0

pub delete_ok :
    (loc : Location) (key : Bytes) (s : Fakes)
    → (fake_s3.delete_object loc key s).0 ≡ ok tt
    → object (fake_s3.delete_object loc key s).1 loc key ≡ none
delete_ok loc key s h =
    ap (λ f. lookup key f.objects) (guarded-ok loc (ask_delete key) s tt h).1
    ∙ Answers.delete_object-gone (s loc) key

pub put_ok :
    (loc : Location) (key body : Bytes) (s : Fakes)
    → (fake_s3.put_object loc key body s).0 ≡ ok tt
    → object (fake_s3.put_object loc key body s).1 loc key ≡ some body
put_ok loc key body s h =
    ap (λ f. lookup key f.objects) (guarded-ok loc (ask_put key body) s tt h).1
    ∙ Answers.put_object_self (s loc) key body

pub not_found-ne : not_found ≢ failed 500
not_found-ne e = cc

pub no_such_key-ne : no_such_key ≢ failed 500
no_such_key-ne e = cc

abbrev pub fake_laws : S3Laws fake_s3
fake_laws = record {
  object = object;
  location_of = λ p. p.location;
  prefix_of = λ p. p.prefix;
  pending = pending;
  pages_left = pages_left;
  head_frame = λ loc key s l j. guarded_frame loc (ask_head key) s l j (λ e. refl);
  get_frame = λ loc key range s l j. guarded_frame loc (ask_get key range) s l j (λ e. refl);
  list_frame = λ loc prefix d n s l j. guarded_frame loc (ask_list prefix d) s l j (λ e. refl);
  page_frame = λ p s l j. guarded_frame p.location (ask_page p) s l j (λ e. refl);
  put_frame = λ loc key body s l j apart.
      guarded_frame loc (ask_put key body) s l j
        (λ e. Frames.put_frame (s loc) key body j (other_key loc key l j apart e));
  upload_frame = λ loc key body s l j apart.
      Frames.upload_frame loc key body s body.read_error l j (other_key loc key l j apart);
  copy_frame = λ loc source key s l j apart.
      guarded_frame loc (ask_copy source key) s l j
        (λ e. Frames.copy_frame (s loc) source key j (other_key loc key l j apart e));
  delete_frame = λ loc key s l j apart.
      guarded_frame loc (ask_delete key) s l j
        (λ e. Frames.delete_frame (s loc) key j (other_key loc key l j apart e));
  delete_all_frame = λ loc keys s l j apart. guarded_frame loc (ask_delete_all keys) s l j (λ e.
      Frames.delete_all_frame (s loc) keys j
        (elim apart [ inl far ↦ absurd (far e) | inr out ↦ out ]));
  head_ok = λ loc key s out h.
      Answers.head_answer-ok (s loc) key out (guarded-ok loc (ask_head key) s out h).0;
  head_not_found = λ loc key s h. (Answers.head_missing loc key s not_found h not_found-ne).0;
  head_no_such_key = λ loc key s h. (Answers.head_missing loc key s no_such_key h no_such_key-ne).0;
  copy_ok = copy_ok;
  delete_ok = delete_ok;
  put_ok = put_ok;
  upload_ok = λ loc key bytes s h. Answers.upload-ok loc key bytes s h;
  delete_all_ok = delete_all_ok;
  list_empty = list_empty;
  new_location = λ loc prefix. refl;
  new_prefix = λ loc prefix. refl;
  new_complete = new_complete;
  pending_prefix = pending_prefix;
  pending_stable = pending_stable;
  no_more_pages = no_more_pages;
  next_page_ok = next_page_ok;
}
