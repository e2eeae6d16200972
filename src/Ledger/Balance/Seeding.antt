-- ===== src/Ledger/Balance/Seeding.antt =====
-- Which grants count as seeded, in a round and in a seed.
use metery.Prelude.{
  Bool, true, false, not, ◌||◌, ◌&&◌, some, String, List, [], ◌∷◌, ◌++◌, map, ◌==◌, ==_refl, ◌≡◌,
  ◌⊎◌, refl, sym, ap, subst, ◌∙◌, All, arith, Bool-cases, inl, inr,
}
use metery.Time.{Time, before}
use metery.Ledger.Types.{Grant, ActiveGrant, Period}
use metery.Ledger.Balance.{activate, grant_map, is_seeded, seed_grants, add_grants, state_of}

-- The grants that are effective before an instant count as seeded.
abbrev pub Covers : Time → List Grant → List String → Type 0
Covers x gs ids = All (λ g. (not (before g.effective_at x) || is_seeded g.id ids) ≡ true) gs

-- The same ids count as seeded.
pub record SameSeeds (ids ids' : List String) : Type 0 where
  pub same : (id : String) → is_seeded id ids ≡ is_seeded id ids'

Covers-cons :
    (x : Time) (gs : List Grant) (i : String) (ids : List String)
    → Covers x gs ids
    → Covers x gs (i ∷ ids)
Covers-cons x [] i ids h = tt
Covers-cons x (g ∷ gs) i ids h = (ground (arith, h.0), Covers-cons x gs i ids h.1)

SameSeeds-cons :
    (i : String) (ids ids' : List String) → SameSeeds ids ids' → SameSeeds (i ∷ ids) (i ∷ ids')
SameSeeds-cons i ids ids' s = record { same = λ id. ap (λ b. i == id || b) (s.same id) }

and_false : (b : Bool) → (b && false) ≡ false
and_false true = refl
and_false false = refl

-- The first round and the later ones add the same grants where those effective before are seeded.
pub add_grants-agree :
    (f f' : Bool) (p : Period) (gs : List Grant) (active : List ActiveGrant)
    (ids ids' : List String)
    → Covers p.start gs ids
    → SameSeeds ids ids'
    → let a = add_grants f p gs (active, ids) in
      let a' = add_grants f' p gs (active, ids') in (a.0 ≡ a'.0) × SameSeeds a.1 a'.1
unfolding add_grants
add_grants-agree f f' p [] active ids ids' c s = (refl, s)
add_grants-agree f f' p (g ∷ gs) active ids ids' c s = elim (Bool-cases (is_seeded g.id ids)) [
  | inl e ↦
      let e' : is_seeded g.id ids' ≡ true = sym (s.same g.id) ∙ e in
      rw (e, e', add_grants) (add_grants-agree f f' p gs active ids ids' c.1 s)
  | inr e ↦
      let e' : is_seeded g.id ids' ≡ false = sym (s.same g.id) ∙ e in
      let late : before g.effective_at p.start ≡ false = ground (arith, c.0, e) in
      elim (Bool-cases (before g.effective_at p.end)) [
        | inl i ↦
            rw (e, e', late, i, add_grants)
              (add_grants-agree f f' p gs (active ++ activate g ∷ []) (g.id ∷ ids) (g.id ∷ ids')
                (Covers-cons p.start gs g.id ids c.1) (SameSeeds-cons g.id ids ids' s))
        | inr o ↦
            rw (e, e', late, o, and_false f, and_false f', add_grants)
              (add_grants-agree f f' p gs active ids ids' c.1 s)
      ]
]

is_seeded_stays :
    (f : Bool) (p : Period) (id : String) (gs : List Grant) (s : List ActiveGrant × List String)
    → is_seeded id s.1 ≡ true
    → is_seeded id (add_grants f p gs s).1 ≡ true
unfolding add_grants
is_seeded_stays f p id [] s h = h
is_seeded_stays f p id (g ∷ gs) (active, ids) h =
    is_seeded_stays f p id gs _ (elim (Bool-cases (is_seeded g.id ids)) [
      | inl e ↦ rw e h
      | inr e ↦
          elim (Bool-cases (
            not (before g.effective_at p.start) && before g.effective_at p.end
            || f && before g.effective_at p.start)) [
              | inl i ↦ rw (e, i) (ground (arith, h))
              | inr o ↦ rw (e, o) h
            ]
    ])

module _ (f : Bool) (p : Period) where
  -- The round is the first, or what is effective before its period begins is seeded.
  abbrev Starts : List Grant → List String → Type 0
  Starts gs ids = (f ≡ true) ⊎ Covers p.start gs ids

  Starts-tail :
      (g : Grant) (gs : List Grant) (ids : List String) → Starts (g ∷ gs) ids → Starts gs ids
  Starts-tail g gs ids (inl e) = inl e
  Starts-tail g gs ids (inr c) = inr c.1

  Starts-cons :
      (i : String) (gs : List Grant) (ids : List String) → Starts gs ids → Starts gs (i ∷ ids)
  Starts-cons i gs ids (inl e) = inl e
  Starts-cons i gs ids (inr c) = inr (Covers-cons p.start gs i ids c)

  abbrev added : Grant → Bool
  added g =
      not (before g.effective_at p.start) && before g.effective_at p.end
      || f && before g.effective_at p.start

  left_out :
      (g : Grant) (gs : List Grant) (ids : List String)
      → Starts (g ∷ gs) ids
      → is_seeded g.id ids ≡ false
      → added g ≡ false
      → before g.effective_at p.end ≡ false
  left_out g gs ids (inl e) n o = ground (arith, e, o)
  left_out g gs ids (inr c) n o = ground (arith, c.0, n, o)

  -- A round seeds what is effective before its period ends.
  pub add_grants-Covers :
      (gs : List Grant) (active : List ActiveGrant) (ids : List String)
      → Starts gs ids
      → Covers p.end gs (add_grants f p gs (active, ids)).1
  unfolding add_grants
  add_grants-Covers [] active ids c = tt
  add_grants-Covers (g ∷ gs) active ids c = elim (Bool-cases (is_seeded g.id ids)) [
    | inl e ↦
        let stays = is_seeded_stays f p g.id gs (active, ids) e in
        by_step (active, ids) (rw (e, add_grants) refl)
          (ground (arith, stays), add_grants-Covers gs active ids (Starts-tail g gs ids c))
    | inr n ↦ elim (Bool-cases (added g)) [
      | inl i ↦
          let s1 : List ActiveGrant × List String = (active ++ activate g ∷ [], g.id ∷ ids) in
          let stays = is_seeded_stays f p g.id gs s1 (rw (==_refl g.id) refl) in
          by_step s1 (rw (n, i, add_grants) refl) (
            ground (arith, stays),
            add_grants-Covers gs s1.0 s1.1 (Starts-cons g.id gs ids (Starts-tail g gs ids c)),
          )
      | inr o ↦
          let late = left_out g gs ids c n o in
          by_step (active, ids) (rw (n, o, add_grants) refl)
            (ground (arith, late), add_grants-Covers gs active ids (Starts-tail g gs ids c))
    ]
  ]
    where
      by_step :
          (s1 : List ActiveGrant × List String)
          → add_grants f p (g ∷ gs) (active, ids) ≡ add_grants f p gs s1
          → Covers p.end (g ∷ gs) (add_grants f p gs s1).1
          → Covers p.end (g ∷ gs) (add_grants f p (g ∷ gs) (active, ids)).1
      by_step s1 e h = subst (λ s. Covers p.end (g ∷ gs) s.1) (sym e) h

-- Each active grant is the one that the list has under its id.
abbrev pub Known : List Grant → List ActiveGrant → Type 0
Known grants active = All (λ ag. grant_map grants ag.id ≡ some ag.grant) active

abbrev pub ids_of : List ActiveGrant → List String
ids_of active = map (λ ag. ag.id) active

-- The seed of a snapshot brings back the grants that it was taken of.
pub seed_grants-state_of :
    (grants : List Grant) (active : List ActiveGrant)
    → Known grants active
    → seed_grants grants (map state_of active) ≡ (active, ids_of active)
unfolding seed_grants
seed_grants-state_of grants [] k = refl
seed_grants-state_of grants (ag ∷ active) k =
    rw (k.0, seed_grants-state_of grants active k.1, seed_grants) refl
