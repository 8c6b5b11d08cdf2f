-- ===== src/Fake/Service.antt =====
-- The fakes as an S3 client: what the SDK makes of their answers. An answer 404 is NotFound for HEAD
-- and NoSuchKey for GET; a fake that fails answers 500 to everything.
use sftp2s.Prelude.{
  ℕ, suc, ◌-◌, Bool, true, false, not, ◌&&◌, Bytes, bytes_eq, bytes_eq_iff, List, [], Option, none,
  some, take, drop, length, ◌≡◌, arith, if◌then◌else◌, ◌↔◌,
}
use sftp2s.Result.{Error, not_found, no_such_key, failed, Result, ok, err}
use sftp2s.Result.Action.{Action}
use sftp2s.S3.{S3, Location, Head, Page, Stream, Object, Uploaded}
use sftp2s.Fake.{
  FakeS3, Response, status, content, get_object, delete_object, delete_objects, put_object,
  copy_object, list_objects, new_year,
}

abbrev pub location_eq : Location → Location → Bool
location_eq l m = bytes_eq l.endpoint m.endpoint && bytes_eq l.bucket m.bucket

pub location_eq_iff : (l m : Location) → (location_eq l m ≡ true) ↔ (l ≡ m)
location_eq_iff l m =
    ground (arith, bytes_eq_iff l.endpoint m.endpoint, bytes_eq_iff l.bucket m.bucket)

abbrev pub Fakes : Type 0
Fakes = Location → FakeS3

abbrev pub set_fake : Location → FakeS3 → Fakes → Fakes
set_fake loc f s l = if location_eq loc l then f else s l

abbrev pub empty_page : Page
empty_page = record { common_prefixes = []; contents = [] }

-- The paginator of the SDK: one page holds everything, since a fake never truncates.
pub record FakePaginator : Type 0 where
  pub location : Location
  pub prefix : Bytes
  pub delimiter : Option ℕ
  pub done : Bool

-- A request that does not reach the objects of a fake that fails.
abbrev pub guarded : {A : Type 0} → Location → (FakeS3 → Result A × FakeS3) → Action Fakes A
guarded loc m s =
    if (s loc).fail then (err (failed 500), s) else (let r = m (s loc) in (r.0, set_fake loc r.1 s))

abbrev pub head_answer : Response Bytes → Result Head
head_answer (status n) = err not_found
head_answer (content bytes) =
    ok (record { content_length = length bytes; last_modified = new_year })

abbrev pub slice : Option (ℕ × ℕ) → Bytes → Bytes
slice none bytes = bytes
slice (some (from, last)) bytes = take (suc last - from) (drop from bytes)

abbrev pub get_answer : Option (ℕ × ℕ) → Response Bytes → Result Object
get_answer range (status n) = err no_such_key
get_answer range (content bytes) = ok (record {
  content_length = length (slice range bytes);
  body = record { bytes = slice range bytes; read_error = none };
})

abbrev pub copy_answer : Response (Unit {0}) → Result (Unit {0})
copy_answer (status n) = err (failed n)
copy_answer (content a) = ok a

abbrev pub store_upload : Location → Bytes → Stream → Fakes → Option Error → Uploaded × Fakes
store_upload loc key body s (some e) = (record { result = err e; drained = true }, s)
store_upload loc key body s none =
    if (s loc).fail then (record { result = err (failed 500); drained = true }, s) else (
      record { result = ok tt; drained = true },
      set_fake loc (put_object (s loc) key body.bytes) s,
    )

abbrev pub list_all : Location → Bytes → Option ℕ → Fakes → Page
list_all loc prefix delimiter s = list_objects prefix delimiter empty_page (s loc).objects

-- One request each, to the fake of its location.
abbrev pub ask_head : Bytes → FakeS3 → Result Head × FakeS3
ask_head key f = (head_answer (get_object f key), f)

abbrev pub ask_get : Bytes → Option (ℕ × ℕ) → FakeS3 → Result Object × FakeS3
ask_get key range f = (get_answer range (get_object f key), f)

abbrev pub ask_put : Bytes → Bytes → FakeS3 → Result (Unit {0}) × FakeS3
ask_put key bytes f = (ok tt, put_object f key bytes)

abbrev pub ask_copy : Bytes → Bytes → FakeS3 → Result (Unit {0}) × FakeS3
ask_copy source key f = let r = copy_object f source key in (copy_answer r.0, r.1)

abbrev pub ask_delete : Bytes → FakeS3 → Result (Unit {0}) × FakeS3
ask_delete key f = (ok tt, delete_object f key)

abbrev pub ask_delete_all : List Bytes → FakeS3 → Result (List Bytes) × FakeS3
ask_delete_all keys f = (ok [], delete_objects f keys)

abbrev pub ask_list : Bytes → Option ℕ → FakeS3 → Result Page × FakeS3
ask_list prefix delimiter f = (ok (list_objects prefix delimiter empty_page f.objects), f)

abbrev pub ask_page : FakePaginator → FakeS3 → Result (Page × FakePaginator) × FakeS3
ask_page p f =
    (ok (list_objects p.prefix p.delimiter empty_page f.objects, record p { done = true }), f)

-- The service of the tests.
abbrev pub fake_s3 : S3
fake_s3 = record {
  Store = Fakes;
  Paginator = FakePaginator;
  head_object = λ loc key. guarded loc (ask_head key);
  get_object = λ loc key range. guarded loc (ask_get key range);
  put_object = λ loc key bytes. guarded loc (ask_put key bytes);
  upload = λ loc key body s. store_upload loc key body s body.read_error;
  copy_object = λ loc source key. guarded loc (ask_copy source key);
  delete_object = λ loc key. guarded loc (ask_delete key);
  delete_objects = λ loc keys. guarded loc (ask_delete_all keys);
  list_objects = λ loc prefix delimiter max. guarded loc (ask_list prefix delimiter);
  new_paginator = λ loc prefix delimiter. record {
    location = loc;
    prefix = prefix;
    delimiter = delimiter;
    done = false;
  };
  has_more_pages = λ p. not p.done;
  next_page = λ p. guarded p.location (ask_page p);
}
