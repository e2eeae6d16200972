-- ===== src/Prelude/Text.antt =====
-- The functions of Go's strings package that the program calls, on native texts.
use Prim.Native.Nat.{ℕ, compare, Ordering}
use Prim.Native.Char.{Char, code}
use Prim.Native.String.{String, len, slice, ◌++◌}
use text.Mathlib.Text.{starts_with as has_prefix_text}
use text.Mathlib.TextPositions.{starts_with-append, slice-append_right, len-append}
use text.Mathlib.TextEquality.{starts_with_iff}
use text.Mathlib.TextLemmas.{nil-append, cons-append}
use mathlib.Core.Path.{◌≡◌, refl, ap, sym, ◌∙◌}
use mathlib.Core.Logic.{inl, inr}
use mathlib.Core.Bool.{Bool, true, false, not, ◌||◌, ◌&&◌}
use mathlib.Core.Option.{Option, none, some}
use mathlib.Core.Option
use native.Mathlib.Omega.{arith}
use metery.Prelude.Tests.{
  if◌then◌else◌, ◌==◌, eq_iff, ==_refl, Bool-cases, none≢some, some_inj, Option-cases,
}

-- `strings.HasPrefix(s, t)`, and what stands behind a prefix, `s[len(t):]`.
abbrev pub has_prefix : String → String → Bool
has_prefix s t = has_prefix_text s t

abbrev pub drop_prefix : String → String → String
drop_prefix s t = slice s (len t) (len s)

pub has_prefix-append : (s t : String) → has_prefix (s ++ t) s ≡ true
has_prefix-append s t = starts_with-append s t

pub drop_prefix-append : (s t : String) → drop_prefix (s ++ t) s ≡ t
drop_prefix-append s t = rw (len-append s t) (slice-append_right s t)

pub has_prefix-split : (s t : String) → has_prefix s t ≡ true → s ≡ t ++ drop_prefix s t
has_prefix-split s t h =
    let (u, e) = (starts_with_iff s t).0 h in
    rw (sym e) (ap (λ v. t ++ v) (sym (drop_prefix-append t u)))

-- `strings.HasSuffix(s, t)`.
unfoldable pub has_suffix : String → String → Bool
has_suffix String.[] t = String.[] == t
has_suffix (String.◌∷◌ c s) t = String.◌∷◌ c s == t || has_suffix s t

has_suffix_self : (t : String) → has_suffix t t ≡ true
unfolding has_suffix
has_suffix_self String.[] = refl
has_suffix_self (String.◌∷◌ c t) = ground (arith, ==_refl (String.◌∷◌ c t))

pub has_suffix-append : (s t : String) → has_suffix (s ++ t) t ≡ true
unfolding has_suffix
has_suffix-append String.[] t = rw (nil-append t) (has_suffix_self t)
has_suffix-append (String.◌∷◌ c s) t =
    rw (cons-append c s t) (ground (arith, has_suffix-append s t))

pub has_suffix-split : (s t : String) → has_suffix s t ≡ true → (u : String) × (s ≡ u ++ t)
unfolding has_suffix
has_suffix-split String.[] t h = (String.[], (eq_iff String.[] t).0 h ∙ sym (nil-append t))
has_suffix-split (String.◌∷◌ c s) t h = elim (Bool-cases (String.◌∷◌ c s == t)) [
  | inl e ↦ (String.[], (eq_iff (String.◌∷◌ c s) t).0 e ∙ sym (nil-append t))
  | inr e ↦
      let (u, f) = has_suffix-split s t (ground (arith, e, h)) in
      (String.◌∷◌ c u, ap (λ v. String.◌∷◌ c v) f ∙ sym (cons-append c u t))
]

-- Whether a character is the one with a code.
abbrev pub is_char : ℕ → Char → Bool
is_char sep c = elim (compare (code c) sep) [ Ordering.eq ↦ true | _ ↦ false ]

-- `strings.Cut(s, sep)` for a separator of one character.
unfoldable pub cut : ℕ → String → Option (String × String)
cut sep String.[] = none
cut sep (String.◌∷◌ c s) =
    let rest = cut sep s in
    if is_char sep c then some (String.[], s) else Option.map (λ p. (String.◌∷◌ c p.0, p.1)) rest

-- No character of the text has the code.
unfoldable pub lacks : ℕ → String → Bool
lacks sep String.[] = true
lacks sep (String.◌∷◌ c s) = not (is_char sep c) && lacks sep s

pub cut-append :
    (sep : ℕ) (c : Char) (a b : String)
    → is_char sep c ≡ true
    → lacks sep a ≡ true
    → cut sep (a ++ String.◌∷◌ c b) ≡ some (a, b)
unfolding cut lacks
cut-append sep c String.[] b here h = rw (nil-append (String.◌∷◌ c b), here) refl
cut-append sep c (String.◌∷◌ d a) b here h =
    let other : is_char sep d ≡ false = ground (arith, h) in
    let rest = cut-append sep c a b here (ground (arith, h)) in
    rw (cons-append d a (String.◌∷◌ c b), other, rest) refl

pub cut-split :
    (sep : ℕ) (s a b : String)
    → cut sep s ≡ some (a, b)
    → (lacks sep a ≡ true) × ((c : Char) × (is_char sep c ≡ true) × (s ≡ a ++ String.◌∷◌ c b))
unfolding cut lacks
cut-split sep String.[] a b e = absurd (none≢some e)
cut-split sep (String.◌∷◌ d s) a b e = elim (Bool-cases (is_char sep d)) [
  | inl here ↦
      let same : (String.[], s) ≡ (a, b) = some_inj (rw here at e) in
      rw (← ap (λ p. p.0) same, ← ap (λ p. p.1) same)
        (refl, (d, here, sym (nil-append (String.◌∷◌ d s))))
  | inr other ↦ elim (Option-cases (cut sep s)) [
    | inl n ↦ absurd (none≢some (rw (other, n) at e))
    | inr ((a', b'), r) ↦
        let same : (String.◌∷◌ d a', b') ≡ (a, b) = some_inj (rw (other, r) at e) in
        let (l, found) = cut-split sep s a' b' r in
        let (c, sep_c, split) = found in
        rw (← ap (λ p. p.0) same, ← ap (λ p. p.1) same)
          (
            ground (arith, other, l),
            (c, sep_c, ap (λ v. String.◌∷◌ d v) split ∙ sym (cons-append d a' (String.◌∷◌ c b'))),
          )
  ]
]
