-- ===== src/Tests/Storage.antt =====
-- The storage operations and the upload file at concrete inputs.
use sftp2s.Prelude.{
  has_prefix, bytes_eq, codes, [], ◌∷◌, some, none, ◌≡◌, ◌≢◌, refl, Bytes, ◌≤◌, List, All, arith,
  length, split_2, trim_prefix,
}
use sftp2s.Result.{ok, err, failed, out_of_fuel}
use sftp2s.Result.Action.{◌>>=◌}
use sftp2s.Storage.{slash}
use sftp2s.Storage.Operations.{batches, copy_source, delete_prefix, collect_keys, delete_batches}
use sftp2s.Storage.Batches.{concat, FitsRequest, batches-concat}
use sftp2s.Storage.Deletion.{DeletesAll, delete_prefix_gone}
use sftp2s.Storage.Termination.{Answers, delete_prefix_ends}
use sftp2s.Fake.{list_objects, after_bucket}
use sftp2s.Fake.Escapes.{copy_source_key}
use sftp2s.Fake.Service.{fake_s3}
use sftp2s.Fake.Lawful.{fake_laws}
use sftp2s.Handlers.Transfer.{writes, stops}
use sftp2s.Handlers.Transfer.Writes.{
  in_range, refused, Write, write_all, new_writer, write_all_bounded,
}
use sftp2s.Tests.Fixtures.{docs, alice, fakes}

abbrev keys : List Bytes
keys = codes "a" ∷ codes "b" ∷ []

batches-concat_example :
    (concat (batches (length keys) keys) ≡ keys) × All FitsRequest (batches (length keys) keys)
batches-concat_example = batches-concat keys

copy_source_key_example :
    after_bucket
      (split_2 slash (trim_prefix (copy_source (codes "b") (codes "a b/é")) (slash ∷ []))).1
    ≡ some (codes "a b/é")
copy_source_key_example = copy_source_key (codes "b") (codes "a b/é") (ground arith)

-- The fakes report no key that they did not delete.
pub fake-DeletesAll : DeletesAll fake_s3
fake-DeletesAll loc names bad s e = ground arith

fake-Answers : Answers fake_s3
fake-Answers = record {
  page = λ p s e. absurd (ground arith);
  delete = λ loc names s e. absurd (ground arith);
}

prefix_deleted : (delete_prefix fake_s3 3 docs (codes "alice/") fakes).0 ≡ ok tt
unfolding delete_prefix delete_batches collect_keys ◌>>=◌ batches list_objects has_prefix bytes_eq
prefix_deleted = refl

delete_prefix_gone_example :
    fake_laws.object
      (delete_prefix fake_s3 3 docs (codes "alice/") fakes).1
      docs.location
      (codes "alice/a.txt")
    ≡ none
delete_prefix_gone_example =
    delete_prefix_gone fake_s3 fake_laws fake-DeletesAll 3 docs (codes "alice/") fakes
      (codes "alice/a.txt") prefix_deleted (codes "a.txt", refl)

delete_prefix_ends_example :
    (delete_prefix fake_s3 2 docs (codes "alice/") fakes).0 ≢ err out_of_fuel
delete_prefix_ends_example =
    delete_prefix_ends fake_s3 fake_laws fake-Answers 2 docs (codes "alice/") fakes (omega arith)

abbrev uploads : List Write
uploads =
    record { disk = writes; bytes = codes "lo"; offset = 3 }
    ∷ record { disk = stops 1 (failed 5); bytes = codes "hel"; offset = 0 }
    ∷ record { disk = stops 0 (failed 6); bytes = codes "hel"; offset = 9223372036854775807 }
    ∷ []

write_all_bounded_example :
    (length (write_all (new_writer docs (codes "k") alice) uploads).file ≤ alice.max_file_size)
    × ((write_all (new_writer docs (codes "k") alice) uploads).size ≤ alice.max_file_size)
write_all_bounded_example =
    write_all_bounded docs (codes "k") alice uploads (omega arith)
      (in_range (omega arith), (in_range (omega arith), (refused (failed 6), tt)))
