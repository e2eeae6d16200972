-- ===== src/Auth/Session.antt =====
-- internal/auth/session.go: the signed cookie that names the user. The parameter is the hex of the
-- HMAC-SHA256 of a text under the manager's secret.
pub mod Signed
use metery.Prelude.{
  ℕ, ◌*◌, ℤ, pos, negsuc, Bool, true, false, Option, none, some, String, List, [], ◌∷◌, ◌==◌,
  if◌then◌else◌, cut,
}
use Prim.Native.String.{◌++◌}

-- The fields of `http.Cookie` that the program sets.
pub record Cookie : Type 0 where
  pub name : String
  pub value : String
  pub path : String
  pub http_only : Bool
  pub secure : Bool
  pub same_site_lax : Bool
  pub max_age : ℤ

abbrev pub session_cookie : String
session_cookie = "metery_session"

-- 30 days, in seconds.
abbrev pub session_max_age : ℕ
session_max_age = 30 * 24 * 3600

-- The value of the first cookie of a request that has a name.
unfoldable pub cookie_of : List (String × String) → String → Option String
cookie_of [] name = none
cookie_of ((n, v) ∷ cookies) name = if n == name then some v else cookie_of cookies name

module _ (sign : String → String) where
  -- `Set`
  unfoldable pub session_set : String → Cookie
  session_set user_id = record {
    name = session_cookie;
    value = user_id ++ ("." ++ sign user_id);
    path = "/";
    http_only = true;
    secure = true;
    same_site_lax = true;
    max_age = pos session_max_age;
  }

  -- What `UserID` makes of the cookie's value.
  unfoldable pub read_value : String → String
  read_value value = elim (cut b'.' value) [
    | none ↦ ""
    | some p ↦ if p.1 == sign p.0 then p.0 else ""
  ]

  -- `UserID`
  unfoldable pub user_id : List (String × String) → String
  unfolding read_value
  user_id cookies = elim (cookie_of cookies session_cookie) [
    | none ↦ ""
    | some value ↦ read_value value
  ]

-- `Clear`
unfoldable pub session_clear : Cookie
session_clear = record {
  name = session_cookie;
  value = "";
  path = "/";
  http_only = false;
  secure = false;
  same_site_lax = false;
  max_age = negsuc 0;
}
