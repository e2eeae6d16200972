-- ===== src/Auth/OAuth/Domains.antt =====
-- Which emails are permitted.
use Prim.Native.String.{◌++◌}
use metery.Prelude.{
  true, String, List, [], ◌∷◌, any, ◌==◌, ==_refl, eq_iff, has_suffix, has_suffix-append,
  has_suffix-split, ◌≡◌, ◌⊎◌, ◌↔◌, refl, arith, Bool-cases, inl, inr,
}
use metery.Auth.OAuth.{email_allowed}

-- The email is at one of the domains.
pub record IsAt (domains : List String) (email : String) : Type 0 where
  pub domain : String
  pub configured : any (λ d. d == domain) domains ≡ true
  pub local : String
  pub address : email ≡ local ++ ("@" ++ domain)

any-IsAt :
    (domains : List String) (email : String)
    → any (λ d. has_suffix email ("@" ++ d)) domains ≡ true
    → IsAt domains email
any-IsAt [] email h = absurd (ground (arith, h))
any-IsAt (d ∷ domains) email h = elim (Bool-cases (has_suffix email ("@" ++ d))) [
  | inl e ↦
      let (u, split) = has_suffix-split email ("@" ++ d) e in
      record { domain = d; configured = ground (arith, ==_refl d); local = u; address = split }
  | inr e ↦
      let rest = any-IsAt domains email (ground (arith, e, h)) in
      record {
        domain = rest.domain;
        configured = ground (arith, rest.configured);
        local = rest.local;
        address = rest.address;
      }
]

IsAt-any :
    (domains : List String) (email : String)
    → IsAt domains email
    → any (λ d. has_suffix email ("@" ++ d)) domains ≡ true
IsAt-any [] email i = absurd (ground (arith, i.configured))
IsAt-any (d ∷ domains) email i = elim (Bool-cases (d == i.domain)) [
  | inl e ↦
      let same : d ≡ i.domain = (eq_iff d i.domain).0 e in
      let ends = has_suffix-append i.local ("@" ++ i.domain) in rw (same, i.address, ends) refl
  | inr e ↦
      let rest = IsAt-any domains email (record {
        domain = i.domain;
        configured = ground (arith, e, i.configured);
        local = i.local;
        address = i.address;
      }) in
      ground (arith, rest)
]

cons≢nil : {A : Type 0} {x : A} {xs : List A} → (x ∷ xs) ≡ [] → ⊥
cons≢nil e = cc

-- An email is permitted if and only if no domain is configured, or it is some text followed by
-- "@" and one of the configured domains.
pub email_allowed-IsAt :
    (domains : List String) (email : String)
    → (email_allowed domains email ≡ true) ↔ ((domains ≡ []) ⊎ IsAt domains email)
unfolding email_allowed
email_allowed-IsAt [] email = (λ h. inl refl, λ h. refl)
email_allowed-IsAt (d ∷ domains) email = (λ h. inr (any-IsAt (d ∷ domains) email h), back)
  where
    back :
        ((d ∷ domains) ≡ []) ⊎ IsAt (d ∷ domains) email
        → any (λ d. has_suffix email ("@" ++ d)) (d ∷ domains) ≡ true
    back (inl e) = absurd (cons≢nil e)
    back (inr i) = IsAt-any (d ∷ domains) email i
