-- ===== src/Prelude/TextOrder.antt =====
-- The order of texts that `ORDER BY` on a column of texts goes by.
use Prim.Native.Nat.{compare, Ordering}
use Prim.Native.Char.{Char, code}
use Prim.Native.String.{String, then}
use Prim.Native.String
use Prim.Native.String.compare as compare_text
use mathlib.Core.Path.{◌≡◌, refl, sym, ap, ◌∙◌}
use mathlib.Core.Bool.{Bool, true, false, true≢false, ◌||◌, ◌&&◌}
use native.Mathlib.Omega.{arith}
use mathlib.Core.Logic.{inl, inr}
use metery.Prelude.Tests.{ltb, leb, text_lt, Bool-cases}

abbrev is_lt : Ordering → Bool
is_lt o = elim o [ Ordering.lt ↦ true | _ ↦ false ]

then_lt :
    (o r : Ordering)
    → is_lt (then o r) ≡ (is_lt o || (elim o [ Ordering.gt ↦ false | _ ↦ true ] && is_lt r))
then_lt Ordering.lt r = refl
then_lt Ordering.eq r = refl
then_lt Ordering.gt r = refl

-- The first characters decide, or else the rest.
text_lt-cons :
    (c d : Char) (s t : String)
    → text_lt (String.◌∷◌ c s) (String.◌∷◌ d t)
      ≡ (ltb (code c) (code d) || (leb (code c) (code d) && text_lt s t))
text_lt-cons c d s t =
    ap is_lt (compare_text.cons-cons c d s t)
    ∙ then_lt (compare (code c) (code d)) (String.compare s t)

text_lt-nil : (s : String) → text_lt s String.[] ≡ false
text_lt-nil String.[] = ap is_lt compare_text.nil-nil
text_lt-nil (String.◌∷◌ c s) = ap is_lt (compare_text.cons-nil c s)

text_lt-nil-cons : (d : Char) (t : String) → text_lt String.[] (String.◌∷◌ d t) ≡ true
text_lt-nil-cons d t = ap is_lt (compare_text.nil-cons d t)

pub text_lt_asymm : (s t : String) → text_lt s t ≡ true → text_lt t s ≡ false
text_lt_asymm String.[] t h = text_lt-nil t
text_lt_asymm (String.◌∷◌ c s) String.[] h =
    absurd (true≢false (sym h ∙ text_lt-nil (String.◌∷◌ c s)))
text_lt_asymm (String.◌∷◌ c s) (String.◌∷◌ d t) h =
    let h' = sym (text_lt-cons c d s t) ∙ h in
    text_lt-cons d c t s ∙ elim (Bool-cases (text_lt s t)) [
      | inl e ↦ let r = text_lt_asymm s t e in ground (arith, h', e, r)
      | inr e ↦ ground (arith, h', e)
    ]

-- A text that is not before another is not before one that is not after it.
pub text_lt_trans :
    (s t u : String) → text_lt s t ≡ false → text_lt t u ≡ false → text_lt s u ≡ false
text_lt_trans s t String.[] h k = text_lt-nil s
text_lt_trans s String.[] (String.◌∷◌ e u) h k =
    absurd (true≢false (sym (text_lt-nil-cons e u) ∙ k))
text_lt_trans String.[] (String.◌∷◌ d t) (String.◌∷◌ e u) h k =
    absurd (true≢false (sym (text_lt-nil-cons d t) ∙ h))
text_lt_trans (String.◌∷◌ c s) (String.◌∷◌ d t) (String.◌∷◌ e u) h k =
    let h' = sym (text_lt-cons c d s t) ∙ h in
    let k' = sym (text_lt-cons d e t u) ∙ k in
    text_lt-cons c e s u ∙ elim (Bool-cases (text_lt s t)) [
      | inl a ↦ ground (arith, h', k', a)
      | inr a ↦ elim (Bool-cases (text_lt t u)) [
        | inl b ↦ ground (arith, h', k', b)
        | inr b ↦ let r = text_lt_trans s t u a b in ground (arith, h', k', r)
      ]
    ]
