-- ===== src/Auth/Middleware/Admitted.antt =====
-- Which requests reach their handler.
use Prim.Native.String.{◌++◌}
use text.Mathlib.TextLemmas.{append-eq-nil_iff}
use mathlib.Core.Bool.{true≢false}
use mathlib.Core.Logic.{◌⊎◌}
use metery.Prelude.{
  true, false, String, List, [], ◌∷◌, any, ◌==◌, ==_refl, eq_iff, has_prefix, drop_prefix,
  has_prefix-append, drop_prefix-append, has_prefix-split, ◌≡◌, ◌≢◌, refl, sym, ap, ◌∙◌, arith,
  Bool-cases, inl, inr,
}
use metery.Store.Db.{World, Action, err}
use metery.Service.Rpc.{unauthenticated, RpcError, refused}
use metery.Auth.Middleware.{valid_keys, bearer, auth_middleware}

-- The header carries one of the configured keys, which is not empty.
pub record IsAdmitted (api_keys : List String) (auth_header : String) : Type 0 where
  pub key : String
  pub nonempty : key ≢ ""
  pub configured : any (λ k. k == key) api_keys ≡ true
  pub carried : auth_header ≡ bearer ++ key

any-valid_keys :
    (token : String) (keys : List String)
    → token ≢ ""
    → any (λ k. k == token) keys ≡ true
    → any (λ k. token == k) (valid_keys keys) ≡ true
unfolding valid_keys
any-valid_keys token [] n h = h
any-valid_keys token (k ∷ keys) n h = elim (Bool-cases (k == token)) [
  | inl same ↦
      let e : k ≡ token = (eq_iff k token).0 same in
      let full : (k == "") ≡ false = ground (arith, eq_iff k "", e, n) in
      rw (full, e, ==_refl token) refl
  | inr other ↦
      let rest = any-valid_keys token keys n (ground (arith, other, h)) in ground (arith, rest)
]

valid_keys-any :
    (token : String) (keys : List String)
    → any (λ k. token == k) (valid_keys keys) ≡ true
    → (token ≢ "") × (any (λ k. k == token) keys ≡ true)
unfolding valid_keys
valid_keys-any token [] h = absurd (ground (arith, h))
valid_keys-any token (k ∷ keys) h = elim (Bool-cases (k == "")) [
  | inl empty ↦
      let (n, rest) = valid_keys-any token keys (rw empty at h) in (n, ground (arith, rest))
  | inr full ↦ elim (Bool-cases (token == k)) [
    | inl same ↦
        let e : token ≡ k = (eq_iff token k).0 same in
        (λ z. ground (arith, eq_iff k "", e, z, full), rw (e, ==_refl k) refl)
    | inr other ↦
        let (n, rest) = valid_keys-any token keys (ground (arith, full, other, h)) in
        (n, ground (arith, rest))
  ]
]

module _ (api_keys : List String) (auth_header : String) where
  -- What the tests of the interceptor say of an admitted header.
  IsAdmitted-tests :
      IsAdmitted api_keys auth_header
      → ((auth_header == "") ≡ false)
        × (has_prefix auth_header bearer ≡ true)
        × (any (λ k. drop_prefix auth_header bearer == k) (valid_keys api_keys) ≡ true)
  IsAdmitted-tests r =
      let token : drop_prefix auth_header bearer ≡ r.key =
        ap (λ v. drop_prefix v bearer) r.carried ∙ drop_prefix-append bearer r.key in
      let full : (auth_header == "") ≡ false = elim (Bool-cases (auth_header == "")) [
        | inr full ↦ full
        | inl e ↦
            let none_left : bearer ++ r.key ≡ "" = sym r.carried ∙ (eq_iff auth_header "").0 e in
            absurd (r.nonempty (append-eq-nil_iff.0 none_left).1)
      ] in
      (
        full,
        ap (λ v. has_prefix v bearer) r.carried ∙ has_prefix-append bearer r.key,
        rw token (any-valid_keys r.key api_keys r.nonempty r.configured),
      )

  -- For any keys, header, handler and world, either the header is "Bearer " followed by one of
  -- the configured keys that is not empty, and the interceptor does what the handler does, or
  -- the header is not of that form, and the call is refused as unauthenticated with the world
  -- unchanged.
  pub auth_middleware-IsAdmitted :
      {A : Type 0} (next : Action RpcError A) (w : World)
      → ((IsAdmitted api_keys auth_header) × (auth_middleware api_keys auth_header next w ≡ next w))
        ⊎ ((¬ IsAdmitted api_keys auth_header)
            × (auth_middleware api_keys auth_header next w
                ≡ (err (refused unauthenticated "unauthenticated"), w)))
  unfolding auth_middleware
  auth_middleware-IsAdmitted next w = elim (Bool-cases (auth_header == "")) [
    | inl e ↦ inr (λ r. true≢false (sym e ∙ (IsAdmitted-tests r).0), rw e refl)
    | inr full ↦ elim (Bool-cases (has_prefix auth_header bearer)) [
      | inr other ↦
          inr (λ r. true≢false (sym (IsAdmitted-tests r).1 ∙ other), rw (full, other) refl)
      | inl prefixed ↦
          elim (Bool-cases (any (λ k. drop_prefix auth_header bearer == k) (valid_keys api_keys))) [
            | inr unknown ↦ inr (
              λ r. true≢false (sym (IsAdmitted-tests r).2 ∙ unknown),
              rw (full, prefixed, unknown) refl,
            )
            | inl known ↦
                let (n, c) = valid_keys-any (drop_prefix auth_header bearer) api_keys known in
                inl (
                  record {
                    key = drop_prefix auth_header bearer;
                    nonempty = n;
                    configured = c;
                    carried = has_prefix-split auth_header bearer prefixed;
                  },
                  rw (full, prefixed, known) refl,
                )
          ]
    ]
  ]
