-- ===== src/Tests/Cipher.antt =====
-- A cipher that puts a value in an envelope with its key.
use ssi_service.Prelude.{String, ◌≡◌, false, Option, some, [], ◌∷◌, Result, ok, err, Error, arith}
use ssi_service.Json.{Json}
use ssi_service.Encryption.{Aead, xchacha_encrypter}
use ssi_service.Tests.Blob.{Blob, blobs, blob_json, json_blob, json_blob-blob_json}

abbrev pub sealed : String → Blob → Blob
sealed k v = Blob.document (("key", Json.str k) ∷ ("value", blob_json v) ∷ [])

abbrev opened : Option Blob → Result (Option Blob)
opened (some (Blob.document (first ∷ (_, j) ∷ []))) = json_blob j
opened _ = err Error.crypto

abbrev seal : String → Blob → Result Blob
seal k v = ok (sealed k v)

pub opened-sealed : (k : String) (v c : Blob) → seal k v ≡ ok c → opened (some c) ≡ ok (some v)
opened-sealed k v c h = ground (arith, json_blob-blob_json v)

abbrev pub envelope : Aead String Blob
envelope = record { seal = seal; open_sealed = λ k c. opened c; open-seal = opened-sealed }

-- An envelope is not empty.
pub envelope-full :
    (v c : Blob)
    → (xchacha_encrypter envelope (ok "secret")).encrypt v ≡ ok c
    → blobs.is_empty c ≡ false
unfolding xchacha_encrypter
envelope-full v c h = ground arith
