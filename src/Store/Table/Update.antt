-- ===== src/Store/Table/Update.antt =====
-- What the writes on a table leave in it.
use metery.Prelude.{
  ◌&&◌, String, ◌==◌, ==_sym, ==_refl, sym, Bool, true, false, ◌||◌, List, [], ◌∷◌, ◌++◌, any,
  filter, find?, some, All, subst, none≢some, some_inj, ◌≡◌, refl, ap, arith, Bool-cases, inl, inr,
}
use metery.Store.Table.{update_where, insert_row, insert_or_ignore}

module _ {ℓ} {A : Type ℓ} where
  module _ (p : A → Bool) (set : A → A) where
    -- An update whose assignments end its own condition leaves no row that meets the condition.
    pub any-update_where :
        ((x : A) → p (set x) ≡ false) → (xs : List A) → any p (update_where p set xs) ≡ false
    any-update_where ends [] = refl
    any-update_where ends (x ∷ xs) = elim (Bool-cases (p x)) [
      | inl e ↦ rw (e, ends x) (any-update_where ends xs)
      | inr e ↦ rw (e, e) (any-update_where ends xs)
    ]

    -- Where no row meets the condition, nothing changes.
    pub update_where-nothing : (xs : List A) → any p xs ≡ false → update_where p set xs ≡ xs
    update_where-nothing [] h = refl
    update_where-nothing (x ∷ xs) h = elim (Bool-cases (p x)) [
      | inl e ↦ absurd (ground (arith, e, h))
      | inr e ↦ rw e (ap (◌∷◌ x) (update_where-nothing xs (ground (arith, e, h))))
    ]

    -- Rows of another kind than those that are updated stay as they are.
    pub filter-update_where :
        (q : A → Bool)
        → ((x : A) → p x ≡ true → q x ≡ false)
        → ((x : A) → p x ≡ true → q (set x) ≡ false)
        → (xs : List A) → filter q (update_where p set xs) ≡ filter q xs
    filter-update_where q before after [] = refl
    filter-update_where q before after (x ∷ xs) =
        let rest = filter-update_where q before after xs in
        elim (Bool-cases (p x)) [
          | inl e ↦ rw (e, before x e, after x e) rest
          | inr e ↦ elim (Bool-cases (q x)) [
            | inl f ↦ rw (e, f) (ap (◌∷◌ x) rest)
            | inr f ↦ rw (e, f) rest
          ]
        ]

  pub any-append : (p : A → Bool) (xs ys : List A) → any p (xs ++ ys) ≡ (any p xs || any p ys)
  any-append p [] ys = refl
  any-append p (x ∷ xs) ys = elim (Bool-cases (p x)) [
    | inl e ↦ rw e refl
    | inr e ↦ rw e (any-append p xs ys)
  ]

  -- A row behind rows that do not match is found if it matches.
  pub find?-last :
      (p : A → Bool) (x : A) (xs : List A)
      → any p xs ≡ false
      → p x ≡ true
      → find? p (xs ++ x ∷ []) ≡ some x
  find?-last p x [] h e = rw e refl
  find?-last p x (y ∷ ys) h e =
      let other : p y ≡ false = ground (arith, h) in
      rw other (find?-last p x ys (ground (arith, h)) e)

  -- After an insert the row, or one that conflicts with it, is there.
  pub any-insert_or_ignore :
      (conflict : A → A → Bool) (x : A)
      → conflict x x ≡ true
      → (xs : List A) → any (conflict x) (insert_or_ignore conflict x xs) ≡ true
  any-insert_or_ignore conflict x self xs = elim (Bool-cases (any (conflict x) xs)) [
    | inl e ↦ rw (e, e) refl
    | inr e ↦ rw (e, any-append (conflict x) xs (x ∷ []), e, self) refl
  ]

  -- A condition on every row.
  module _ (P : A → Type 0) where
    All-snoc : (xs : List A) (x : A) → All P xs → P x → All P (xs ++ x ∷ [])
    All-snoc [] x h hx = (hx, tt)
    All-snoc (y ∷ xs) x h hx = (h.0, All-snoc xs x h.1 hx)

    pub All-insert_row :
        (conflict : A → A → Bool) (x : A) (xs after : List A)
        → insert_row conflict x xs ≡ some after
        → P x
        → All P xs
        → All P after
    All-insert_row conflict x xs after e hx h = elim (Bool-cases (any (conflict x) xs)) [
      | inl clash ↦ absurd (none≢some (rw clash at e))
      | inr new ↦ subst (All P) (some_inj (rw new at e)) (All-snoc xs x h hx)
    ]

    pub All-update_where :
        (p : A → Bool) (set : A → A)
        → ((x : A) → P x → P (set x))
        → (xs : List A) → All P xs
        → All P (update_where p set xs)
    All-update_where p set kept [] h = tt
    All-update_where p set kept (x ∷ xs) h = elim (Bool-cases (p x)) [
      | inl e ↦ rw e (kept x h.0, All-update_where p set kept xs h.1)
      | inr e ↦ rw e (h.0, All-update_where p set kept xs h.1)
    ]

  -- A table in which a row is named by its id or by another key.
  module _ (id key : A → String) (x : A) where
    abbrev names_it : A → Bool
    names_it q = id q == key x || key q == key x

    unnamed :
        (rows : List A)
        → any (λ q. id x == id q || key x == key q) rows ≡ false
        → any (λ q. id q == key x) rows ≡ false
        → any names_it rows ≡ false
    unnamed [] h k = refl
    unnamed (q ∷ rows) h k =
        let rest = unnamed rows (ground (arith, h)) (ground (arith, k)) in
        ground (arith, rest, h, k, ==_sym (key x) (key q))

    -- After an insert that the keys allow, the key names the row, unless it is the id of another.
    pub find?-named :
        (rows after : List A)
        → insert_row (λ a b. id a == id b || key a == key b) x rows ≡ some after
        → any (λ q. id q == key x) rows ≡ false
        → find? names_it after ≡ some x
    find?-named rows after e k =
        elim (Bool-cases (any (λ q. id x == id q || key x == key q) rows)) [
          | inl clash ↦ absurd (none≢some (rw clash at e))
          | inr apart ↦
              rw (sym (some_inj (rw apart at e))) (
                find?-last names_it x rows (unnamed rows apart k) (ground (arith, ==_refl (key x))))
        ]

  -- A row that is found is there, with its key.
  pub find?-any :
      (key : A → String) (p : A → Bool) (xs : List A) (x : A)
      → find? p xs ≡ some x
      → any (λ r. p r && key r == key x) xs ≡ true
  find?-any key p [] x e = absurd (none≢some e)
  find?-any key p (y ∷ ys) x e = elim (Bool-cases (p y)) [
    | inl h ↦ rw (h, some_inj (rw h at e), ==_refl (key x)) refl
    | inr h ↦ rw h (find?-any key p ys x (rw h at e))
  ]

  -- A row with the key of a row that is found can be found by it.
  pub find?-key :
      (key : A → String) (p : A → Bool) (xs : List A) (x : A)
      → find? p xs ≡ some x
      → (y : A) × (find? (λ r. key r == key x) xs ≡ some y)
  find?-key key p [] x e = absurd (none≢some e)
  find?-key key p (y ∷ ys) x e = elim (Bool-cases (key y == key x)) [
    | inl same ↦ (y, rw same refl)
    | inr other ↦ elim (Bool-cases (p y)) [
      | inl h ↦ let this : y ≡ x = some_inj (rw h at e) in (y, rw (this, ==_refl (key x)) refl)
      | inr h ↦ let (z, f) = find?-key key p ys x (rw h at e) in (z, rw other f)
    ]
  ]
