-- ===== src/Pagination.antt =====
-- pkg/server/pagination/pagination.go and pkg/service/common/pagination.go: the page of a request.
use ssi_service.Prelude.{
  ℕ, String, ◌≡◌, Bool, Option, none, some, Result, ok, err, Error, then_pure, leb, ◌==◌, arith,
  Bool-cases, inl, inr, if◌then◌else◌,
}

pub record PageToken : Type 0 where
  pub encoded_query : String
  pub next_page_token : String

-- The size 0 is never there, since it is refused; `none` is a parameter that is absent.
pub record PageRequest : Type 0 where
  pub page_size : Option ℕ
  pub page_token : Option String

-- The size `none` is -1, all pages.
pub record Page : Type 0 where
  pub token : String
  pub size : Option ℕ

-- The Go libraries: `atoi` gives a number, or `none` within for a negative one; `decode` and
-- `encode` are base64 with JSON; `Query` is the parsed query, less the two parameters of the page.
pub record Queries (Query : Type 0) : Type 0 where
  pub atoi : String → Result (Option ℕ)
  pub decode : String → Result PageToken
  pub encode : PageToken → String
  pub parse_query : String → Result Query
  pub encode_query : Query → String
  pub deep_equal : Query → Query → Bool
  pub decode-encode : (t : PageToken) → decode (encode t) ≡ ok t
  pub parse_query-encode_query : (q : Query) → parse_query (encode_query q) ≡ ok q

module _ {Query : Type 0} (lib : Queries Query) where
  positive : Option ℕ → Result (Option ℕ)
  positive none = err Error.invalid
  positive (some n) = if leb n 0 then err Error.invalid else ok (some n)

  unfoldable pub parse_size : Option String → Result (Option ℕ)
  unfolding positive
  parse_size none = ok none
  parse_size (some t) = then_pure (lib.atoi t) positive

  unfoldable pub parse_token : Query → Option String → Result (Option String)
  parse_token query none = ok none
  parse_token query (some t) = then_pure (lib.decode t) λ token.
      then_pure (lib.parse_query token.encoded_query) λ values.
        if lib.deep_equal values query then ok (some token.next_page_token) else err Error.invalid

  -- `ParsePaginationQueryValues`; a response with an error is an error.
  unfoldable pub parse_pagination : Query → Option String → Option String → Result PageRequest
  unfolding parse_size parse_token
  parse_pagination query size token =
      then_pure (parse_size size)
        λ s. then_pure (parse_token query token) λ t. ok (record { page_size = s; page_token = t })

  -- `MaybeSetNextPageToken`; `none` leaves the response without a token.
  unfoldable pub maybe_set_next_page_token : Query → String → Option String
  maybe_set_next_page_token query token =
      if token == ""
      then none
      else some
          (lib.encode (record { encoded_query = lib.encode_query query; next_page_token = token }))

  parse_token-maybe_set :
      (query next : Query) (token sent : String)
      → maybe_set_next_page_token query token ≡ some sent
      → parse_token next (some sent)
        ≡ (if lib.deep_equal query next then ok (some token) else err Error.invalid)
  unfolding parse_token maybe_set_next_page_token
  parse_token-maybe_set query next token sent h = ground (
    arith,
    lib.decode-encode (record { encoded_query = lib.encode_query query; next_page_token = token }),
    lib.parse_query-encode_query query,
  )

or_empty : Option String → String
or_empty none = ""
or_empty (some t) = t

-- `ToServicePage`, with `none` for a nil request
unfoldable pub to_service_page : Option PageRequest → Page
unfolding or_empty
to_service_page none = record { token = ""; size = none }
to_service_page (some r) = record { token = or_empty r.page_token; size = r.page_size }

-- `ToStorageArgs`
unfoldable pub to_storage_args : Option Page → String × Option ℕ
to_storage_args none = ("", none)
to_storage_args (some p) = (p.token, p.size)

-- The page token that a response carried, sent with a query that is deeply equal and any size that is
-- accepted, asks the store for the page of that token and size; with a query that is not deeply
-- equal, the request is refused.
pub parse_pagination-maybe_set :
    {Query : Type 0} (lib : Queries Query) (query next : Query) (token sent : String)
    (text : Option String) (size : Option ℕ)
    → maybe_set_next_page_token lib query token ≡ some sent
    → parse_size lib text ≡ ok size
    → then_pure
        (parse_pagination lib next text (some sent))
        (λ r. ok (to_storage_args (some (to_service_page (some r)))))
      ≡ (if lib.deep_equal query next then ok (token, size) else err Error.invalid)
unfolding parse_pagination to_storage_args to_service_page
parse_pagination-maybe_set lib query next token sent text size h p =
    elim (Bool-cases (lib.deep_equal query next)) [
      | inl same ↦ ground (arith, parse_token-maybe_set lib query next token sent h)
      | inr other ↦ ground (arith, parse_token-maybe_set lib query next token sent h)
    ]
