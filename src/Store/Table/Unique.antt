-- ===== src/Store/Table/Unique.antt =====
-- Writes that keep a table free of conflicts.
use metery.Prelude.{
  Bool, true, false, some, List, [], ◌∷◌, ◌++◌, any, if◌then◌else◌, ◌≡◌, refl, sym, ◌∙◌, arith,
  Bool-cases, inl, inr, none≢some, some_inj,
}
use metery.Store.Table.{insert_row, insert_or_ignore, update_where, is_unique}
use metery.Store.Table.Update.{any-append}

module _ {ℓ} {A : Type ℓ} (conflict : A → A → Bool) where
  IsUnique-snoc :
      ((a b : A) → conflict a b ≡ conflict b a)
      → (x : A) (rows : List A) → any (conflict x) rows ≡ false
      → is_unique conflict rows ≡ true
      → is_unique conflict (rows ++ x ∷ []) ≡ true
  IsUnique-snoc symmetric x [] new u = refl
  IsUnique-snoc symmetric x (r ∷ rows) new u =
      let apart : conflict r x ≡ false = symmetric r x ∙ ground (arith, new) in
      let rest : is_unique conflict (rows ++ x ∷ []) ≡ true =
        IsUnique-snoc symmetric x rows (ground (arith, new)) (ground (arith, u)) in
      let alone : any (conflict r) rows ≡ false = ground (arith, u) in
      rw (any-append (conflict r) rows (x ∷ []), alone, apart) rest

  pub insert_row-is_unique :
      ((a b : A) → conflict a b ≡ conflict b a)
      → (x : A) (rows after : List A) → insert_row conflict x rows ≡ some after
      → is_unique conflict rows ≡ true
      → is_unique conflict after ≡ true
  insert_row-is_unique symmetric x rows after e u = elim (Bool-cases (any (conflict x) rows)) [
    | inl clash ↦ absurd (none≢some (rw clash at e))
    | inr new ↦ rw (sym (some_inj (rw new at e))) (IsUnique-snoc symmetric x rows new u)
  ]

  pub insert_or_ignore-is_unique :
      ((a b : A) → conflict a b ≡ conflict b a)
      → (x : A) (rows : List A) → is_unique conflict rows ≡ true
      → is_unique conflict (insert_or_ignore conflict x rows) ≡ true
  insert_or_ignore-is_unique symmetric x rows u = elim (Bool-cases (any (conflict x) rows)) [
    | inl there ↦ rw there u
    | inr new ↦ rw new (IsUnique-snoc symmetric x rows new u)
  ]

  module _ (p : A → Bool) (set : A → A)
      (fewer_left : (a b : A) → p a ≡ true → conflict (set a) b ≡ true → conflict a b ≡ true)
      (fewer_right : (a b : A) → p b ≡ true → conflict a (set b) ≡ true → conflict a b ≡ true) where
    abbrev updated : A → A
    updated a = if p a then set a else a

    fewer : (a b : A) → conflict (updated a) (updated b) ≡ true → conflict a b ≡ true
    fewer a b h = elim (Bool-cases (p a)) [
      | inl ea ↦ elim (Bool-cases (p b)) [
        | inl eb ↦ fewer_left a b ea (fewer_right (set a) b eb (rw (ea, eb) at h))
        | inr eb ↦ fewer_left a b ea (rw (ea, eb) at h)
      ]
      | inr ea ↦ elim (Bool-cases (p b)) [
        | inl eb ↦ fewer_right a b eb (rw (ea, eb) at h)
        | inr eb ↦ rw (ea, eb) at h
      ]
    ]

    any-updated :
        (a : A) (rows : List A)
        → any (conflict a) rows ≡ false
        → any (conflict (updated a)) (update_where p set rows) ≡ false
    any-updated a [] h = refl
    any-updated a (r ∷ rows) h = elim (Bool-cases (conflict (updated a) (updated r))) [
      | inl clash ↦ absurd (ground (arith, h, fewer a r clash))
      | inr apart ↦ rw apart (any-updated a rows (ground (arith, h)))
    ]

    -- An update that makes no new conflicts.
    pub update_where-is_unique :
        (rows : List A)
        → is_unique conflict rows ≡ true
        → is_unique conflict (update_where p set rows) ≡ true
    update_where-is_unique [] u = refl
    update_where-is_unique (r ∷ rows) u =
        let rest = update_where-is_unique rows (ground (arith, u)) in
        let alone = any-updated r rows (ground (arith, u)) in rw (alone) rest
