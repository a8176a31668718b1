-- ===== src/Tests/Blob.antt =====
-- A JSON library whose byte strings are the documents themselves.
use ssi_service.Prelude.{
  ℕ, String, ◌≡◌, refl, ap, Bool, false, Option, none, some, List, [], ◌∷◌, Result, ok, err, Error,
  ◌==◌,
}
use ssi_service.Json.{Json, Items, members, of_members, of_members-members, Codec, Document}
use ssi_service.Storage.Bolt.{bolt_db}
use ssi_service.Storage.Bolt.Laws.{bolt_db-IsLawful}
use ssi_service.Storage.Contract.{ServiceStorage, IsLawful}
use ssi_service.Tests.Mem.{mem_bolt, mem_bolt-IsSound}
use ssi_service.Prelude.{Assoc}

pub data Blob : Type 0 where
  document : Document → Blob
  ints : List ℕ → Blob
  raw : String → Blob

abbrev items : List ℕ → Items
items [] = Items.nil
items (n ∷ l) = Items.cons (Json.num n) (items l)

abbrev number : Json → ℕ
number (Json.num n) = n
number _ = 0

abbrev of_items : Items → List ℕ
of_items Items.nil = []
of_items (Items.cons j l) = number j ∷ of_items l

of_items-items : (l : List ℕ) → of_items (items l) ≡ l
of_items-items [] = refl
of_items-items (n ∷ l) = ap (◌∷◌ n) (of_items-items l)

abbrev pub blob_json : Blob → Json
blob_json (document m) = Json.obj (members m)
blob_json (ints l) = Json.arr (items l)
blob_json (raw s) = Json.str s

abbrev pub json_blob : Json → Result (Option Blob)
json_blob Json.null = ok none
json_blob (Json.obj m) = ok (some (document (of_members m)))
json_blob (Json.arr l) = ok (some (ints (of_items l)))
json_blob (Json.str s) = ok (some (raw s))
json_blob _ = err Error.codec

pub json_blob-blob_json : (b : Blob) → json_blob (blob_json b) ≡ ok (some b)
json_blob-blob_json (document m) = ap (λ x. ok (some (document x))) (of_members-members m)
json_blob-blob_json (ints l) = ap (λ x. ok (some (ints x))) (of_items-items l)
json_blob-blob_json (raw s) = refl

abbrev blob_empty : Blob → Bool
blob_empty (raw s) = s == ""
blob_empty _ = false

abbrev blob_unmarshal : Blob → Option Document
blob_unmarshal (document m) = some m
blob_unmarshal _ = none

abbrev blob_ints : Blob → Option (List ℕ)
blob_ints (ints l) = some l
blob_ints _ = none

abbrev pub blobs : Codec Blob
blobs = record {
  is_empty = blob_empty;
  marshal = document;
  unmarshal = blob_unmarshal;
  reread = λ m. m;
  marshal_ints = ints;
  unmarshal_ints = blob_ints;
  bytes_json = blob_json;
  json_bytes = json_blob;
  unmarshal-marshal = λ m. refl;
  lookup-reread = λ m k. refl;
  is_empty-marshal = λ m. refl;
  unmarshal_ints-marshal_ints = λ l. refl;
  is_empty-marshal_ints = λ l. refl;
  json_bytes-bytes_json = json_blob-blob_json;
}

-- The Bolt store over the bbolt in memory.
abbrev pub store : ServiceStorage (Assoc (Assoc Blob)) Blob
store = bolt_db mem_bolt

pub store-IsLawful : IsLawful store
store-IsLawful = bolt_db-IsLawful mem_bolt mem_bolt-IsSound
