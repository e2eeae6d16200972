-- ===== src/Command/Texts/Parts.antt =====
-- What the parts of a list in a variable are.
use Prim.Native.Char.{Char}
use Prim.Native.String.{String}
use metery.Prelude.{
  ℕ, Bool, true, false, not, ◌&&◌, List, [], ◌∷◌, map, filter, All, ◌==◌, eq_iff, is_char, lacks,
  ◌≡◌, ◌≢◌, refl, ap, ◌∙◌, arith, Bool-cases, inl, inr,
}
use metery.Command.Texts.{prepend, split, is_space, trim_left, trim_right, trim_space, split_csv}

module _ (sep : ℕ) where
  lacks-trim_left : (s : String) → lacks sep s ≡ true → lacks sep (trim_left s) ≡ true
  unfolding lacks
  lacks-trim_left String.[] h = refl
  lacks-trim_left (String.◌∷◌ c s) h = elim (Bool-cases (is_space c)) [
    | inl e ↦ rw e (lacks-trim_left s (ground (arith, h)))
    | inr e ↦ rw e h
  ]

  lacks-trim_right : (s : String) → lacks sep s ≡ true → lacks sep (trim_right s) ≡ true
  unfolding lacks
  lacks-trim_right String.[] h = refl
  lacks-trim_right (String.◌∷◌ c s) h =
      let rest = lacks-trim_right s (ground (arith, h)) in
      elim (Bool-cases (is_space c && trim_right s == "")) [
        | inl e ↦ rw e refl
        | inr e ↦ rw e (ground (arith, h, rest))
      ]

  lacks-prepend :
      (c : Char) (parts : List String)
      → is_char sep c ≡ false
      → All (λ p. lacks sep p ≡ true) parts
      → All (λ p. lacks sep p ≡ true) (prepend c parts)
  unfolding lacks
  lacks-prepend c [] e h = (ground (arith, e), tt)
  lacks-prepend c (p ∷ parts) e h = (ground (arith, e, h.0), h.1)

  lacks-split : (s : String) → All (λ p. lacks sep p ≡ true) (split sep s)
  unfolding split lacks
  lacks-split String.[] = (refl, tt)
  lacks-split (String.◌∷◌ c s) = elim (Bool-cases (is_char sep c)) [
    | inl e ↦ rw (e, split) (refl, lacks-split s)
    | inr e ↦ rw (e, split) (lacks-prepend c (split sep s) e (lacks-split s))
  ]

-- A text that does not begin with a space.
abbrev solid : String → Bool
solid String.[] = true
solid (String.◌∷◌ c s) = not (is_space c)

solid-trim_left : (s : String) → solid (trim_left s) ≡ true
solid-trim_left String.[] = refl
solid-trim_left (String.◌∷◌ c s) = elim (Bool-cases (is_space c)) [
  | inl e ↦ rw e (solid-trim_left s)
  | inr e ↦ rw (e, e) refl
]

trim_left-solid : (s : String) → solid s ≡ true → trim_left (trim_right s) ≡ trim_right s
trim_left-solid String.[] h = refl
trim_left-solid (String.◌∷◌ c s) h =
    let e : is_space c ≡ false = ground (arith, h) in rw (e, e) refl

trim_right_twice : (s : String) → trim_right (trim_right s) ≡ trim_right s
trim_right_twice String.[] = refl
trim_right_twice (String.◌∷◌ c s) = elim (Bool-cases (is_space c && trim_right s == "")) [
  | inl e ↦ rw e refl
  | inr e ↦ rw (e, trim_right_twice s, e) refl
]

trim_space_twice : (s : String) → trim_space (trim_space s) ≡ trim_space s
unfolding trim_space
trim_space_twice s =
    ap trim_right (trim_left-solid (trim_left s) (solid-trim_left s))
    ∙ trim_right_twice (trim_left s)

-- A part has no comma, is not empty, and has no space around it.
pub record IsPart (p : String) : Type 0 where
  pub no_comma : lacks b',' p ≡ true
  pub nonempty : p ≢ ""
  pub trimmed : trim_space p ≡ p

lacks-trim_space : (s : String) → lacks b',' s ≡ true → lacks b',' (trim_space s) ≡ true
unfolding trim_space
lacks-trim_space s h = lacks-trim_right b',' (trim_left s) (lacks-trim_left b',' s h)

parts-IsPart :
    (parts : List String)
    → All (λ p. lacks b',' p ≡ true) parts
    → All IsPart (filter (λ p. not (p == "")) (map trim_space parts))
parts-IsPart [] h = tt
parts-IsPart (p ∷ parts) h = elim (Bool-cases (trim_space p == "")) [
  | inl e ↦ rw e (parts-IsPart parts h.1)
  | inr e ↦ rw e (
    record {
      no_comma = lacks-trim_space p h.0;
      nonempty = λ z. ground (arith, eq_iff (trim_space p) "", e, z);
      trimmed = trim_space_twice p;
    },
    parts-IsPart parts h.1,
  )
]

-- For any text, each part that `splitCSV` gives is not empty, has no comma in it, and is what
-- trimming it again gives.
pub split_csv-IsPart : (s : String) → All IsPart (split_csv s)
unfolding split_csv
split_csv-IsPart s = elim (Bool-cases (s == "")) [
  | inl e ↦ rw (e, split_csv) tt
  | inr e ↦ rw (e, split_csv) (parts-IsPart (split b',' s) (lacks-split b',' s))
]
