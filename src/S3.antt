-- ===== src/S3.antt =====
-- The S3 client of aws-sdk-go-v2, which is not part of the repository: an interface with the calls
-- that the program makes, and (in Laws) the documented behaviour that it relies on.
pub mod Laws
use sftp2s.Prelude.{ℕ, Bool, Bytes, List, Option}
use sftp2s.Result.{Error, Result}
use sftp2s.Result.Action.{Action}

-- A bucket behind the endpoint and credentials of one client.
pub record Location : Type 0 where
  pub endpoint : Bytes
  pub bucket : Bytes

-- s3.HeadObjectOutput
pub record Head : Type 0 where
  pub content_length : ℕ
  pub last_modified : ℕ

-- types.Object
pub record Listed : Type 0 where
  pub key : Bytes
  pub size : ℕ
  pub last_modified : ℕ

-- s3.ListObjectsV2Output
pub record Page : Type 0 where
  pub common_prefixes : List Bytes
  pub contents : List Listed

-- A reader: the bytes that it delivers, and the error in place of EOF behind them, if there is one.
pub record Stream : Type 0 where
  pub bytes : Bytes
  pub read_error : Option Error

-- s3.GetObjectOutput
pub record Object : Type 0 where
  pub content_length : ℕ
  pub body : Stream

-- How an upload ended, and whether it had read its body to the end.
pub record Uploaded : Type 0 where
  pub result : Result (Unit {0})
  pub drained : Bool

-- `Store` is the state of the service, all its buckets together.
pub record S3 : Type 1 where
  pub Store : Type 0
  pub Paginator : Type 0
  pub head_object : Location → Bytes → Action Store Head
  -- an inclusive byte range, or the whole object
  pub get_object : Location → Bytes → Option (ℕ × ℕ) → Action Store Object
  pub put_object : Location → Bytes → Bytes → Action Store (Unit {0})
  -- manager.Uploader.Upload
  pub upload : Location → Bytes → Stream → Store → Uploaded × Store
  -- the source in the form of the CopySource field
  pub copy_object : Location → Bytes → Bytes → Action Store (Unit {0})
  pub delete_object : Location → Bytes → Action Store (Unit {0})
  -- the keys that the response lists under Errors
  pub delete_objects : Location → List Bytes → Action Store (List Bytes)
  -- the bucket, the prefix, the delimiter and MaxKeys
  pub list_objects : Location → Bytes → Option ℕ → ℕ → Action Store Page
  -- s3.NewListObjectsV2Paginator: the bucket, the prefix and the delimiter
  pub new_paginator : Location → Bytes → Option ℕ → Paginator
  pub has_more_pages : Paginator → Bool
  pub next_page : Paginator → Action Store (Page × Paginator)
