-- ===== src/Json.antt =====
-- JSON documents as the services store them, and what the JSON and base64 libraries are relied on
-- for. A stored document is an object, an association list from names to values.
use ssi_service.Prelude.{
  ℕ, String, ◌≡◌, Bool, false, Option, none, some, List, [], ◌∷◌, Assoc, lookup, insert, Result, ok,
  err, refl, ap, then_pure, Error, leb, if◌then◌else◌,
}

mutual
  pub data Json : Type 0 where
    null : Json
    bool : Bool → Json
    num : ℕ → Json
    str : String → Json
    arr : Items → Json
    obj : Members → Json

  pub data Items : Type 0 where
    nil : Items
    cons : Json → Items → Items

  pub data Members : Type 0 where
    end : Members
    member : String → Json → Members → Members

abbrev pub Document : Type 0
Document = Assoc Json

-- github.com/goccy/go-json over the byte strings `Bytes`; `bytes_json` is the value that a field of
-- type `[]byte` gets, a text in base64. `reread m` is the
-- document that reading back `marshal m` gives: the names of a Go map come back sorted, so only the
-- value of each name is said to be kept.
pub record Codec (Bytes : Type 0) : Type 0 where
  pub is_empty : Bytes → Bool
  pub marshal : Document → Bytes
  pub unmarshal : Bytes → Option Document
  pub reread : Document → Document
  pub marshal_ints : List ℕ → Bytes
  pub unmarshal_ints : Bytes → Option (List ℕ)
  pub bytes_json : Bytes → Json
  pub json_bytes : Json → Result (Option Bytes)
  pub unmarshal-marshal : (m : Document) → unmarshal (marshal m) ≡ some (reread m)
  pub lookup-reread : (m : Document) (k : String) → lookup k (reread m) ≡ lookup k m
  pub is_empty-marshal : (m : Document) → is_empty (marshal m) ≡ false
  pub unmarshal_ints-marshal_ints : (l : List ℕ) → unmarshal_ints (marshal_ints l) ≡ some l
  pub is_empty-marshal_ints : (l : List ℕ) → is_empty (marshal_ints l) ≡ false
  pub json_bytes-bytes_json : (b : Bytes) → json_bytes (bytes_json b) ≡ ok (some b)

-- How a field of a Go struct is read from a document: a name that is missing or null leaves the zero
-- value, and a value of another type is an error.
abbrev pub as_string : Option Json → Result String
as_string none = ok ""
as_string (some null) = ok ""
as_string (some (str s)) = ok s
as_string (some _) = err Error.codec

abbrev pub as_bool : Option Json → Result Bool
as_bool none = ok false
as_bool (some null) = ok false
as_bool (some (bool b)) = ok b
as_bool (some _) = err Error.codec

-- a `uint8`
abbrev pub as_byte : Option Json → Result ℕ
as_byte none = ok 0
as_byte (some null) = ok 0
as_byte (some (num n)) = if leb n 255 then ok n else err Error.codec
as_byte (some _) = err Error.codec

abbrev pub as_value : Option Json → Result Json
as_value none = ok null
as_value (some v) = ok v

-- A `[]string`
unfoldable pub string_items : List String → Items
string_items [] = Items.nil
string_items (s ∷ more) = Items.cons (Json.str s) (string_items more)

unfoldable pub items_strings : Items → Result (List String)
items_strings Items.nil = ok []
items_strings (Items.cons j rest) =
    then_pure (as_string (some j)) λ s. then_pure (items_strings rest) λ more. ok (s ∷ more)

unfoldable pub as_strings : Option Json → Result (List String)
unfolding items_strings
as_strings none = ok []
as_strings (some null) = ok []
as_strings (some (arr l)) = items_strings l
as_strings (some _) = err Error.codec

pub items_strings-string_items : (l : List String) → items_strings (string_items l) ≡ ok l
unfolding items_strings string_items
items_strings-string_items [] = refl
items_strings-string_items (s ∷ more) = rw (items_strings-string_items more)

-- A struct inside a struct
abbrev pub members : Document → Members
members [] = Members.end
members ((k, v) ∷ m) = Members.member k v (members m)

abbrev pub of_members : Members → Document
of_members Members.end = []
of_members (Members.member k v m) = (k, v) ∷ of_members m

pub of_members-members : (m : Document) → of_members (members m) ≡ m
of_members-members [] = refl
of_members-members ((k, v) ∷ m) = ap (◌∷◌ (k, v)) (of_members-members m)

abbrev pub as_object : Option Json → Result Document
as_object none = ok []
as_object (some null) = ok []
as_object (some (obj m)) = ok (of_members m)
as_object (some _) = err Error.codec

-- `for k, val := range values { model[k] = val }`
abbrev pub insert_all : Document → Document → Document
insert_all [] m = m
insert_all ((k, v) ∷ rest) m = insert_all rest (insert k v m)
