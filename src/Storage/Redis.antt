-- ===== src/Storage/Redis.antt =====
-- pkg/storage/redis.go over the go-redis library.
pub mod Scan
pub mod Laws
pub mod Transaction
use Prim.Native.String.{len, slice}
use ssi_service.Prelude.{
  ℕ, zero, suc, ◌+◌, String, ◌<>◌, ◌≡◌, Bool, true, false, ◌&&◌, not, Option, none, some, List, [],
  ◌∷◌, ◌++◌, Assoc, insert, length, Result, ok, err, Error, Action, then_pure, lift, reads, fail,
  pure, ◌>>=◌, ◌>>◌, ◌==◌, eqb, leb, if◌then◌else◌,
}
use ssi_service.Storage.Bolt.{wants_more}
use ssi_service.Storage.Update.{Updater}
use ssi_service.Credential.Keys.{join}

-- github.com/redis/go-redis and strconv. `R` is what the server holds; `none` is the reply nil, and
-- the cursor 0 of a scan begins and ends it. `mget` gives the values as `fmt` prints them.
pub record Redis (R Bytes : Type 0) : Type 0 where
  pub get : R → String → Result (Option Bytes)
  pub set : String → Bytes → Action R (Unit {0})
  pub mset : Assoc Bytes → Action R (Unit {0})
  pub mget : R → List String → Result (List Bytes)
  pub exists : R → String → Result ℕ
  pub scan : R → ℕ → String → ℕ → Result (List String × ℕ)
  pub get_del : String → Action R (Option Bytes)
  pub del : List String → Action R (Unit {0})
  pub parse_uint : String → Result ℕ
  pub format_uint : ℕ → String

unfoldable pub get_redis_key : String → String → String
unfolding join
get_redis_key namespace key = join (namespace ∷ key ∷ [])

-- `key[keyStart:]`
unfoldable pub without_namespace : String → String → String
without_namespace namespace key = slice key (len namespace + 1) (len key)

abbrev pub scan_batch_size : ℕ
scan_batch_size = 1000

unfoldable pub min : ℕ → ℕ → ℕ
min l r = if leb l r then l else r

unfoldable pub scan_count : Option ℕ → ℕ
unfolding min
scan_count none = scan_batch_size
scan_count (some size) = min scan_batch_size size

-- The two lists as a map; a list that is too short panics.
unfoldable pub pairs :
    {Bytes : Type 0} → List String → List String → List Bytes → Result (Assoc Bytes)
unfolding get_redis_key
pairs [] ks vs = ok []
pairs (n ∷ ns) (k ∷ ks) (v ∷ vs) =
    then_pure (pairs ns ks vs) λ rest. ok ((get_redis_key n k, v) ∷ rest)
pairs (n ∷ ns) _ _ = err Error.panic

-- Whether the slice from the place after the namespace and the colon is in range.
unfoldable pub fits : String → String → Bool
fits namespace key = leb (len namespace + 1) (len key)

-- A slice that is out of range panics.
unfoldable pub fill :
    {Bytes : Type 0} → String → List String → List Bytes → Assoc Bytes → Result (Assoc Bytes)
unfolding without_namespace fits
fill namespace (k ∷ ks) (v ∷ vs) result =
    let rest = fill namespace ks vs (insert (without_namespace namespace k) v result) in
    if fits namespace k then rest else err Error.panic
fill namespace _ _ result = ok result

unfoldable pub cut_all : String → List String → Result (List String)
unfolding without_namespace fits
cut_all namespace [] = ok []
cut_all namespace (k ∷ ks) =
    if fits namespace k
    then then_pure (cut_all namespace ks) (λ rest. ok (without_namespace namespace k ∷ rest))
    else err Error.panic

module _ {R Bytes : Type 0} (lib : Redis R Bytes) where
  unfoldable pub exists : R → String → String → Result Bool
  unfolding get_redis_key
  exists r ns k = then_pure (lib.exists r (get_redis_key ns k)) λ n. ok (not (eqb n 0))

  unfoldable pub write : String → String → Bytes → Action R (Unit {0})
  unfolding get_redis_key
  write ns k v = lib.set (get_redis_key ns k) v

  unfoldable pub write_many : List String → List String → List Bytes → Action R (Unit {0})
  unfolding pairs
  write_many ns ks vs =
      if not (eqb (length ns) (length ks)) && not (eqb (length ns) (length vs))
      then fail Error.invalid
      else do values ← lift (pairs ns ks vs); lib.mset values

  unfoldable pub read : R → String → String → Result (Option Bytes)
  unfolding get_redis_key
  read r ns k = lib.get r (get_redis_key ns k)

  -- The loop of `readAllKeys`, on fuel: the keys, and the cursor that the last scan gave.
  unfoldable pub scan_loop :
      R → String → Option ℕ → ℕ → ℕ → List String → ℕ → Result (List String × ℕ)
  scan_loop r pattern size zero cursor found next = err Error.unfinished
  scan_loop r pattern size (suc fuel) cursor found next = elim (wants_more size (length found)) [
    | false ↦ ok (found, next)
    | true ↦ elim (lib.scan r cursor pattern (scan_count size)) [
      | err e ↦ err e
      | ok page ↦ elim (eqb page.1 0) [
        | true ↦ ok (found ++ page.0, page.1)
        | false ↦ scan_loop r pattern size fuel page.1 (found ++ page.0) page.1
      ]
    ]
  ]

  -- The token is "" where the scan is at its end.
  unfoldable pub all_keys : ℕ → R → String → Option ℕ → ℕ → Result (List String × String)
  unfolding scan_loop
  all_keys fuel r namespace size cursor =
      then_pure (scan_loop r (namespace <> "*") size fuel cursor [] 0)
        λ p. ok (p.0, if eqb p.1 0 then "" else lib.format_uint p.1)

  unfoldable pub read_values : R → String → List String → Result (Assoc Bytes)
  unfolding fill
  read_values r namespace [] = ok []
  read_values r namespace (k ∷ ks) = then_pure (lib.mget r (k ∷ ks)) λ vs.
      if eqb (length (k ∷ ks)) (length vs) then fill namespace (k ∷ ks) vs [] else err Error.io

  unfoldable pub read_all : ℕ → R → String → Result (Assoc Bytes)
  unfolding all_keys read_values
  read_all fuel r namespace =
      then_pure (all_keys fuel r namespace none 0) λ p. read_values r namespace p.0

  unfoldable pub read_prefix : ℕ → R → String → String → Result (Assoc Bytes)
  unfolding all_keys read_values get_redis_key
  read_prefix fuel r namespace prefix =
      then_pure (all_keys fuel r (get_redis_key namespace prefix) none 0)
        λ p. read_values r namespace p.0

  unfoldable pub read_all_keys : ℕ → R → String → Result (List String)
  unfolding all_keys cut_all
  read_all_keys fuel r namespace =
      then_pure (all_keys fuel r namespace none 0) λ p. cut_all namespace p.0

  unfoldable pub read_page : ℕ → R → String → String → Option ℕ → Result (Assoc Bytes × String)
  unfolding all_keys read_values
  read_page fuel r namespace token size =
      then_pure (if token == "" then ok 0 else lib.parse_uint token) λ cursor.
        then_pure (all_keys fuel r namespace size cursor)
          λ p. then_pure (read_values r namespace p.0) λ values. ok (values, p.1)

  -- Whether one scan finds a key; an error of the scan counts as none.
  unfoldable pub namespace_exists : R → String → Bool
  namespace_exists r namespace = elim (lib.scan r 0 (namespace <> "*") scan_batch_size) [
    | err e ↦ false
    | ok page ↦ not (eqb (length page.0) 0)
  ]

  -- To delete what is not there is no error.
  unfoldable pub delete : String → String → Action R (Unit {0})
  unfolding namespace_exists get_redis_key
  delete ns k = do
    there ← reads (λ r. ok (namespace_exists r ns))
    lift (if there then ok tt else err Error.not_found)
    lib.get_del (get_redis_key ns k)
    pure tt

  unfoldable pub delete_namespace : ℕ → String → Action R (Unit {0})
  unfolding all_keys
  delete_namespace fuel namespace = do
    keys ← reads (λ r. then_pure (all_keys fuel r namespace none 0) λ p. ok p.0)
    lift (if eqb (length keys) 0 then err Error.not_found else ok tt)
    lib.del keys

  found_value : Option Bytes → Result (Option Bytes)
  found_value none = err Error.not_found
  found_value (some b) = ok (some b)

  -- Reads and writes the server at once.
  unfoldable pub tx_with_updater : String → String → Updater Bytes → Action R Bytes
  unfolding get_redis_key found_value
  tx_with_updater ns k u = do
    stored ← reads (λ r. then_pure (lib.get r (get_redis_key ns k)) found_value)
    lift (u.validate stored)
    updated ← lift (u.update stored)
    lib.set (get_redis_key ns k) updated
    pure updated

  -- Nothing is put into the pipeline, so the library runs this function alone.
  unfoldable pub update_value_and_operation :
      String
      → String
      → Updater Bytes
      → String
      → String
      → (Bytes → Updater Bytes)
      → Action R (Bytes × Bytes)
  unfolding tx_with_updater
  update_value_and_operation ns k u op_ns op_k op_updater = do
    first ← tx_with_updater ns k u
    op ← tx_with_updater op_ns op_k (op_updater first)
    pure (first, op)

-- The options of `Init`: an id and, if it is a string, its value. Those of another id are passed over.
unfoldable pub set_option : String × Option String → String × String → Result (String × String)
set_option (id, value) (address, password) =
    if id == "redis-address-option"
    then elim value [
      | none ↦ err Error.invalid
      | some a ↦ if a == "" then err Error.invalid else ok (a, password)
    ]
    else if id == "storage-password-option"
    then elim value [
      | none ↦ err Error.invalid
      | some p ↦ if p == "" then err Error.invalid else ok (address, p)
    ]
    else ok (address, password)

unfoldable pub process_redis_options : Assoc (Option String) → Result (String × String)
unfolding set_option
process_redis_options (first ∷ second ∷ []) = then_pure (set_option first ("", "")) λ one.
    then_pure (set_option second one) λ two.
      if two.0 == "" then err Error.invalid else if two.1 == "" then err Error.invalid else ok two
process_redis_options _ = err Error.invalid
