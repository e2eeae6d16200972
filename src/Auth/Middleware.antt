-- ===== src/Auth/Middleware.antt =====
-- internal/auth/auth.go: the interceptor in front of every handler of the API.
pub mod Admitted
use metery.Prelude.{
  Bool, true, false, not, String, List, any, filter, ◌==◌, if◌then◌else◌, has_prefix, drop_prefix,
}
use metery.Store.Db.{Action, fail}
use metery.Service.Rpc.{unauthenticated, RpcError, refused}

-- The configured keys that are not empty.
unfoldable pub valid_keys : List String → List String
valid_keys api_keys = filter (λ k. not (k == "")) api_keys

abbrev pub bearer : String
bearer = "Bearer "

abbrev pub deny : {A : Type 0} → Action RpcError A
deny = fail (refused unauthenticated "unauthenticated")

-- A header with no token is denied; a token is compared with each key.
unfoldable pub auth_middleware :
    {A : Type 0} → List String → String → Action RpcError A → Action RpcError A
unfolding valid_keys
auth_middleware api_keys auth_header next =
    if auth_header == ""
    then deny
    else (if not (has_prefix auth_header bearer)
        then deny
        else (if any (λ key. drop_prefix auth_header bearer == key) (valid_keys api_keys)
            then next
            else deny))
