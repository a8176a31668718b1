-- ===== src/Tests/Pages.antt =====
-- The theorem on page tokens, with an encoding of its own.
use Prim.Native.String.{String}
use ssi_service.Prelude.{
  ℕ, ◌≡◌, refl, Option, some, Result, ok, err, Error, then_pure, ◌==◌, if◌then◌else◌,
}
use ssi_service.Pagination.{
  PageToken, Queries, parse_size, parse_pagination, maybe_set_next_page_token, to_service_page,
  to_storage_args, parse_pagination-maybe_set,
}

-- Each character of the query is marked by an `x`, and the token follows a `y`.
abbrev marked : String → String → String
marked String.[] next = String.◌∷◌ "y" next
marked (String.◌∷◌ c q) next = String.◌∷◌ "x" (String.◌∷◌ c (marked q next))

abbrev unmarked : String → PageToken
unmarked String.[] = record { encoded_query = ""; next_page_token = "" }
unmarked (String.◌∷◌ m String.[]) = record { encoded_query = ""; next_page_token = "" }
unmarked (String.◌∷◌ m (String.◌∷◌ c rest)) =
    let t = unmarked rest in
    if String.◌∷◌ m String.[] == "x"
    then record {
      encoded_query = String.◌∷◌ c t.encoded_query;
      next_page_token = t.next_page_token;
    }
    else record { encoded_query = ""; next_page_token = String.◌∷◌ c rest }

unmarked-marked :
    (q next : String)
    → unmarked (marked q next) ≡ record { encoded_query = q; next_page_token = next }
unmarked-marked String.[] String.[] = refl
unmarked-marked String.[] (String.◌∷◌ c next) = refl
unmarked-marked (String.◌∷◌ c q) next = rw (unmarked-marked q next) refl

abbrev number_of : String → Result (Option ℕ)
number_of t = if t == "2" then ok (some 2) else err Error.invalid

abbrev encode_token : PageToken → String
encode_token t = marked t.encoded_query t.next_page_token

abbrev decode_token : String → Result PageToken
decode_token t = ok (unmarked t)

decode-encode : (t : PageToken) → decode_token (encode_token t) ≡ ok t
decode-encode t = rw (unmarked-marked t.encoded_query t.next_page_token) refl

texts : Queries String
texts = record {
  atoi = number_of;
  decode = decode_token;
  encode = encode_token;
  parse_query = λ q. ok q;
  encode_query = λ q. q;
  deep_equal = λ p q. p == q;
  decode-encode = decode-encode;
  parse_query-encode_query = λ q. refl;
}

pages_example :
    then_pure
      (parse_pagination texts "kind=a" (some "2") (some (marked "kind=a" "key")))
      (λ r. ok (to_storage_args (some (to_service_page (some r)))))
    ≡ ok ("key", some 2)
unfolding texts maybe_set_next_page_token parse_size
pages_example =
    parse_pagination-maybe_set texts "kind=a" "kind=a" "key" (marked "kind=a" "key") (some "2")
      (some 2) refl refl
