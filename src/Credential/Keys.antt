-- ===== src/Credential/Keys.antt =====
-- The keys of stored credentials and status lists (credential/storage.go), and the searches in them.
use Prim.Native.String.{String, ◌++◌}
use text.Mathlib.Text.{starts_with}
use ssi_service.Prelude.{Bool, ◌||◌, ◌&&◌, List, [], ◌∷◌, ◌==◌}

-- `storage.Join`
unfoldable pub join : List String → String
join [] = ""
join (s ∷ []) = s
join (s ∷ rest) = s ++ (":" ++ join rest)

-- `storage.MakeNamespace`
unfoldable pub make_namespace : List String → String
make_namespace [] = ""
make_namespace (s ∷ []) = s
make_namespace (s ∷ rest) = s ++ ("-" ++ make_namespace rest)

-- `strings.Contains` and `strings.HasSuffix`
unfoldable pub contains : String → String → Bool
contains String.[] t = t == ""
contains (String.◌∷◌ c s) t = starts_with (String.◌∷◌ c s) t || contains s t

unfoldable pub has_suffix : String → String → Bool
has_suffix String.[] t = t == ""
has_suffix (String.◌∷◌ c s) t = String.◌∷◌ c s == t || has_suffix s t

unfoldable pub get_status_list_key : String → String → String → String
unfolding join
get_status_list_key issuer schema purpose =
    join ("is" ∷ issuer ∷ "sc" ∷ schema ∷ "sp" ∷ purpose ∷ [])

unfoldable pub create_prefix_key : String → String → String → String → String
unfolding join
create_prefix_key id issuer subject schema =
    join (id ∷ "is" ∷ issuer ∷ "su" ∷ subject ∷ "sc" ∷ schema ∷ [])

-- The tests by which the two searches select keys.
unfoldable pub matches_status_list : String → String → String → String → Bool
unfolding join contains has_suffix
matches_status_list issuer schema purpose k =
    contains k issuer && has_suffix k (join ("sc" ∷ schema ∷ "sp" ∷ purpose ∷ []))

unfoldable pub matches_credential : String → String → String → Bool
unfolding join contains has_suffix
matches_credential issuer schema k = contains k issuer && has_suffix k (join ("sc" ∷ schema ∷ []))
