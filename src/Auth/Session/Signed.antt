-- ===== src/Auth/Session/Signed.antt =====
-- Which cookies name a user.
use Prim.Native.Char.{Char}
use Prim.Native.String.{◌++◌, char_at}
use text.Mathlib.TextEquality.{codes_equal}
use text.Mathlib.TextLemmas.{nil-append, cons-append}
use metery.Prelude.{
  true, some, String, List, ◌==◌, ==_refl, eq_iff, ◌≡◌, ◌≢◌, ◌↔◌, refl, sym, ap, ◌∙◌, arith, cut,
  lacks, is_char, cut-append, cut-split, Bool-cases, Option-cases, inl, inr,
}
use metery.Auth.Session.{session_set, session_cookie, cookie_of, user_id, read_value}

dot : Char
dot = char_at "." 0

dot_text : (t : String) → "." ++ t ≡ String.◌∷◌ dot t
unfolding dot
dot_text t = cons-append dot String.[] t ∙ ap (λ v. String.◌∷◌ dot v) (nil-append t)

dot_unique : (c : Char) → is_char b'.' c ≡ true → c ≡ dot
unfolding dot
dot_unique c h = codes_equal c dot (ground (arith, h))

module _ (sign : String → String) where
  read_value-session_set :
      (id : String) → lacks b'.' id ≡ true → read_value sign (session_set sign id).value ≡ id
  unfolding read_value session_set dot
  read_value-session_set id h =
      rw
        (dot_text (sign id), cut-append b'.' dot id (sign id) refl h, read_value, ==_refl (sign id))
        refl

  read_value-split :
      (value id : String)
      → id ≢ ""
      → read_value sign value ≡ id
      → (lacks b'.' id ≡ true) × (value ≡ (session_set sign id).value)
  unfolding read_value session_set
  read_value-split value id named e = elim (Option-cases (cut b'.' value)) [
    | inl n ↦ absurd (named (sym (rw (n, read_value) at e)))
    | inr ((a, sig), r) ↦ elim (Bool-cases (sig == sign a)) [
      | inr forged ↦ absurd (named (sym (rw (r, forged, read_value) at e)))
      | inl signed ↦
          let same : a ≡ id = rw (r, signed, read_value) at e in
          let sig_same : sig ≡ sign a = (eq_iff sig (sign a)).0 signed in
          let (l, found) = cut-split b'.' value a sig r in
          let (c, at_dot, split) = found in
          rw (← same) (
            l,
            split ∙ rw (dot_unique c at_dot, sig_same) (ap (λ v. a ++ v) (sym (dot_text (sign a)))),
          )
    ]
  ]

  -- For any signature function and cookies, `UserID` answers with a given id that is not empty
  -- if and only if the id has no dot in it and the session cookie has the value that `Set`
  -- gives it for the id: no other value names the user.
  pub user_id-session_set :
      (cookies : List (String × String)) (id : String)
      → id ≢ ""
      → (user_id sign cookies ≡ id) ↔ (
          (lacks b'.' id ≡ true)
          × (cookie_of cookies session_cookie ≡ some (session_set sign id).value))
  unfolding user_id
  user_id-session_set cookies id named = (forth, back)
    where
      forth :
          user_id sign cookies ≡ id
          → (lacks b'.' id ≡ true)
            × (cookie_of cookies session_cookie ≡ some (session_set sign id).value)
      forth e = elim (Option-cases (cookie_of cookies session_cookie)) [
        | inl n ↦ absurd (named (sym (rw (n, user_id) at e)))
        | inr (value, v) ↦
            let (l, same) = read_value-split value id named (rw (v, user_id) at e) in
            (l, v ∙ ap (λ t. some t) same)
      ]

      back :
          (lacks b'.' id ≡ true)
            × (cookie_of cookies session_cookie ≡ some (session_set sign id).value)
          → user_id sign cookies ≡ id
      back (l, v) = rw (v, user_id) (read_value-session_set id l)
