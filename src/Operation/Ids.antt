-- ===== src/Operation/Ids.antt =====
-- The ids of operations, and the places that they stand for: operation/submission/submission.go,
-- operation/credential/response.go, operation/storage/storage.go and
-- operation/storage/namespace/namespace.go.
use Prim.Native.Char.{Char, code}
use Prim.Native.String.{String, ◌++◌}
use text.Mathlib.TextLemmas.{nil-append, cons-append}
use ssi_service.Prelude.{◌≡◌, refl, ap, ◌∙◌, Option, none, some, ◌==◌, eqb, true, if◌then◌else◌}

abbrev pub submission_parent : String
submission_parent = "presentations/submissions"

abbrev pub credential_parent : String
credential_parent = "credentials/responses"

-- The texts before and after the last "/": `strings.LastIndex` and the two slices at it.
unfoldable pub cut_last : String → Option (String × String)
cut_last String.[] = none
cut_last (String.◌∷◌ c s) = elim (cut_last s) [
  | some (before, rest) ↦ some (String.◌∷◌ c before, rest)
  | none ↦ if eqb (code c) b'/' then some ("", s) else none
]

-- `fmt.Sprintf("%s/%s", ParentResource, id)`
unfoldable pub id_from_submission_id : String → String
id_from_submission_id id = submission_parent ++ ("/" ++ id)

unfoldable pub id_from_response_id : String → String
id_from_response_id id = credential_parent ++ ("/" ++ id)

-- The last word of an operation's id, "" where it has no "/".
unfoldable pub status_object_id : String → String
status_object_id op_id = elim (cut_last op_id) [ none ↦ "" | some (before, rest) ↦ rest ]

unfoldable pub from_parent : String → String
from_parent parent =
    if parent == submission_parent
    then "operation_submission"
    else if parent == credential_parent
    then "operation_credential_response"
    else ""

unfoldable pub from_id : String → String
from_id id = elim (cut_last id) [ none ↦ "" | some (parent, rest) ↦ from_parent parent ]

cut_last-cons :
    (c : Char) (b : String)
    → eqb (code c) b'/' ≡ true
    → cut_last b ≡ none
    → cut_last (String.◌∷◌ c b) ≡ some ("", b)
unfolding cut_last
cut_last-cons c b slash h = rw (h, cut_last) (rw slash refl)

slash-append : (b : String) → "/" ++ b ≡ String.◌∷◌ "/" b
slash-append b = cons-append "/" "" b ∙ ap (String.◌∷◌ "/") (nil-append b)

cut_last-slash : (b : String) → cut_last b ≡ none → cut_last ("/" ++ b) ≡ some ("", b)
cut_last-slash b h = ap cut_last (slash-append b) ∙ cut_last-cons "/" b refl h

pub cut_last-append : (a b : String) → cut_last b ≡ none → cut_last (a ++ ("/" ++ b)) ≡ some (a, b)
unfolding cut_last
cut_last-append String.[] b h = rw nil-append (cut_last-slash b h)
cut_last-append (String.◌∷◌ c a) b h =
    rw (cons-append c a ("/" ++ b)) (rw (cut_last-append a b h, cut_last) refl)

status_object_id_cut :
    (op_id : String) {before rest : String}
    → cut_last op_id ≡ some (before, rest)
    → status_object_id op_id ≡ rest
unfolding status_object_id
status_object_id_cut op_id h = rw (h, status_object_id)

from_id_cut :
    (id : String) {parent rest : String}
    → cut_last id ≡ some (parent, rest)
    → from_id id ≡ from_parent parent
unfolding from_id
from_id_cut id h = rw (h, from_id)

-- For an object id with no "/", the operation's id leads back to the object, and to the namespace
-- of the operations of its kind.
pub ids_roundtrip :
    (id : String)
    → cut_last id ≡ none
    → (status_object_id (id_from_submission_id id) ≡ id)
      × (from_id (id_from_submission_id id) ≡ "operation_submission")
      × (status_object_id (id_from_response_id id) ≡ id)
      × (from_id (id_from_response_id id) ≡ "operation_credential_response")
unfolding id_from_submission_id id_from_response_id from_parent
ids_roundtrip id h = (
  status_object_id_cut _ (cut_last-append submission_parent id h),
  from_id_cut _ (cut_last-append submission_parent id h),
  status_object_id_cut _ (cut_last-append credential_parent id h),
  from_id_cut _ (cut_last-append credential_parent id h),
)
