-- ===== src/Store/Db/Keeps.antt =====
-- Relations between the tables before and after an action, carried through its parts.
use metery.Prelude.{Option, none, some, ◌≡◌, refl, ◌∙◌, inl, inr, Option-cases, subst}
use metery.Store.Db.{
  Db, World, Env, Result, ok, err, Action, ◌>>=◌, ◌>>◌, pure, gets, or_fail, modify, try_modify,
  transaction, new_ulid, now, now_second, StoreError, no_rows,
}

-- A relation that holds over nothing, and over two things when it holds over each.
pub record Relation : Type 1 where
  pub rel : Db → Db → Type 0
  pub rel_refl : (d : Db) → rel d d
  pub rel_trans : (d e f : Db) → rel d e → rel e f → rel d f

-- The tables stay as they are.
abbrev pub Unchanged : Relation
Unchanged = record { rel = ◌≡◌; rel_refl = λ d. refl; rel_trans = λ d e f h k. h ∙ k }

module _ (R : Relation) where
  -- Whatever its result, the action relates the tables.
  pub record Keeps {E A : Type 0} (m : Action E A) : Type 0 where
    pub kept : (w : World) → R.rel w.db (m w).1.db

  module _ {E A : Type 0} where
    pub Keeps-pure : (a : A) → Keeps {E = E} (pure a)
    Keeps-pure a = record { kept = λ w. R.rel_refl w.db }

    pub Keeps-or_fail : (o : Option A) (e : E) → Keeps (or_fail o e)
    Keeps-or_fail none e = record { kept = λ w. R.rel_refl w.db }
    Keeps-or_fail (some a) e = record { kept = λ w. R.rel_refl w.db }

    pub Keeps-gets : (f : Db → A) → Keeps {E = E} (gets f)
    Keeps-gets f = record { kept = λ w. R.rel_refl w.db }

    pub Keeps-transaction : {m : Action E A} → Keeps m → Keeps (transaction m)
    unfolding transaction
    Keeps-transaction {m} k = record { kept = λ w. through w (m w) (k.kept w) }
      where
        through :
            (w : World) (s : Result E A × World)
            → R.rel w.db s.1.db
            → R.rel w.db (transaction (λ _. s) w).1.db
        through w (ok a, w') h = h
        through w (err e, w') h = R.rel_refl w.db

  pub Keeps-bind :
      {E A B : Type 0} {m : Action E A} {f : A → Action E B}
      → Keeps m
      → ((a : A) → Keeps (f a))
      → Keeps (m >>= f)
  Keeps-bind {E} {A} {B} {m} {f} k l = record { kept = λ w. through w (m w) (k.kept w) }
    where
      through :
          (w : World) (s : Result E A × World)
          → R.rel w.db s.1.db
          → R.rel w.db (((λ _. s) >>= f) w).1.db
      through w (ok a, w') h = R.rel_trans _ _ _ h ((l a).kept w')
      through w (err e, w') h = h

  pub Keeps-seq :
      {E A B : Type 0} {m : Action E A} {n : Action E B} → Keeps m → Keeps n → Keeps (m >> n)
  Keeps-seq k l = Keeps-bind k (λ _. l)

  pub Keeps-modify :
      {E : Type 0} (f : Db → Db) → ((d : Db) → R.rel d (f d)) → Keeps {E = E} (modify f)
  unfolding modify
  Keeps-modify f h = record { kept = λ w. h w.db }

  pub Keeps-try_modify :
      (f : Db → Option Db) → ((d e : Db) → f d ≡ some e → R.rel d e) → Keeps (try_modify f)
  unfolding try_modify
  Keeps-try_modify f h = record {
    kept = λ w. elim (Option-cases (f w.db)) [
      | inl n ↦ rw (n, try_modify) (R.rel_refl w.db)
      | inr (d, e) ↦ rw (e, try_modify) (h w.db d e)
    ];
  }

  module _ {E : Type 0} (env : Env) where
    pub Keeps-new_ulid : Keeps {E = E} (new_ulid env)
    unfolding new_ulid
    Keeps-new_ulid = record { kept = λ w. R.rel_refl w.db }

    pub Keeps-now_second : Keeps {E = E} (now_second env)
    unfolding now_second
    Keeps-now_second = record { kept = λ w. R.rel_refl w.db }

    pub Keeps-now : Keeps {E = E} (now env)
    unfolding now
    Keeps-now = record { kept = λ w. R.rel_refl w.db }

-- What writes nothing keeps every relation.
pub Keeps-read : (R : Relation) {E A : Type 0} {m : Action E A} → Keeps Unchanged m → Keeps R m
Keeps-read R k = record { kept = λ w. subst (λ d. R.rel w.db d) (k.kept w) (R.rel_refl w.db) }

-- A row that is found or not.
pub Unchanged-found :
    {A : Type 0} (f : Db → Option A)
    → Keeps Unchanged {E = StoreError} (gets f >>= λ o. or_fail o no_rows)
Unchanged-found f =
    Keeps-bind Unchanged (Keeps-gets Unchanged f) (λ o. Keeps-or_fail Unchanged o no_rows)
