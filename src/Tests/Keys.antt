-- ===== src/Tests/Keys.antt =====
-- Keys that are texts, and a store that holds one.
use ssi_service.Prelude.{String, true, false, [], ◌∷◌, Assoc, ok}
use ssi_service.Json.{Json}
use ssi_service.Encryption.{Encrypter, Decrypter, xchacha_encrypter, xchacha_decrypter}
use ssi_service.Keystore.{StoredKey, Keys, key_document}
use ssi_service.Tests.Blob.{Blob}
use ssi_service.Tests.Cipher.{envelope, sealed}

-- The signature of a text is its data.
abbrev pub text_keys : Keys Blob Blob String
text_keys = record {
  is_supported = λ t. true;
  decode = λ t. ok (Blob.raw t);
  to_private = λ b t. ok b;
  to_public_jwk = λ id k. ok id;
  jwk_document = λ j. ("kid", Json.str j) ∷ [];
  document_jwk = λ m. ok "";
  sign = λ controller id k payload. ok controller;
}

abbrev pub encrypter : Encrypter Blob
encrypter = xchacha_encrypter envelope (ok "secret")

abbrev pub decrypter : Decrypter Blob
decrypter = xchacha_decrypter envelope (ok "secret")

abbrev pub key_one : StoredKey
key_one = record {
  id = "k1";
  controller = "did:key:i";
  key_type = "Ed25519";
  base58_key = "abc";
  revoked = false;
  revoked_at = "";
  created_at = "now";
}

abbrev pub with_key : Assoc (Assoc Blob)
with_key = ("keystore", ("k1", sealed "secret" (Blob.document (key_document key_one))) ∷ []) ∷ []
