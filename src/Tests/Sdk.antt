-- ===== src/Tests/Sdk.antt =====
-- Values of the SDK that are texts.
use ssi_service.Prelude.{String, refl, Result, ok, err, Error}
use ssi_service.Json.{Json}
use ssi_service.Presentation.Storage.{SdkValue}

abbrev texts_json : String → Json
texts_json s = Json.str s

abbrev json_texts : Json → Result String
json_texts (Json.str s) = ok s
json_texts _ = err Error.codec

-- Presentations that are texts.
abbrev pub texts : SdkValue String
texts = record { to_json = texts_json; of_json = json_texts; of_json-to_json = λ v. refl }
