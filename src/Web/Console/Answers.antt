-- ===== src/Web/Console/Answers.antt =====
-- Actions that always answer, with a value that meets a condition, and write nothing.
use metery.Prelude.{◌≡◌, sym, subst, refl, ◌∙◌, Option, none, some}
use metery.Store.Db.{
  World, ok_inj, ok≢err, Result, ok, err, StoreError, Action, ◌>>=◌, pure, now, Env,
}
use metery.Store.Db.Keeps.{Unchanged, Keeps}
use metery.Service.Rpc.{or_nil}

pub record Answers {A : Type 0} (P : A → Type 0) (m : Action StoreError A) : Type 0 where
  pub answers : (w : World) → (a : A) × (P a) × ((m w).0 ≡ ok a) × (w.db ≡ (m w).1.db)

-- Nothing is asked of the value.
abbrev pub Any : {A : Type 0} → A → Type 0
Any a = Unit {0}

module _ {A : Type 0} where
  pub Answers-pure : (P : A → Type 0) (a : A) → P a → Answers P (pure a)
  Answers-pure P a h = record { answers = λ w. (a, h, refl, refl) }

  pub Answers-or_nil : (m : Action StoreError A) → Keeps Unchanged m → Answers Any (or_nil m)
  Answers-or_nil m k = record { answers = λ w. through w (m w) (k.kept w) }
    where
      through :
          (w : World) (s : Result StoreError A × World)
          → w.db ≡ s.1.db
          → let t = or_nil {E = StoreError} (λ _. s) w in
            (o : Option A) × (Unit {0}) × (t.0 ≡ ok o) × (w.db ≡ t.1.db)
      through w (ok a, v) h = (some a, tt, refl, h)
      through w (err e, v) h = (none, tt, refl, h)

pub Answers-bind :
    {A B : Type 0} (P : A → Type 0) (Q : B → Type 0) (m : Action StoreError A)
    (f : A → Action StoreError B)
    → Answers P m
    → ((a : A) → P a → Answers Q (f a))
    → Answers Q (m >>= f)
Answers-bind {A} {B} P Q m f k l = record { answers = λ w. through w (m w) (k.answers w) }
  where
    through :
        (w : World) (s : Result StoreError A × World)
        → (a : A) × (P a) × (s.0 ≡ ok a) × (w.db ≡ s.1.db)
        → let t = ((λ (x : World). s) >>= f) w in (b : B) × (Q b) × (t.0 ≡ ok b) × (w.db ≡ t.1.db)
    through w (ok c, v) (a, h, e, d) =
        let same : c ≡ a = ok_inj e in
        let (b, i, g, j) = (l c (subst P (sym same) h)).answers v in (b, i, g, d ∙ j)
    through w (err x, v) (a, h, e, d) = absurd (ok≢err (sym e))

pub Answers-then :
    {A B : Type 0} {Q : B → Type 0} {m : Action StoreError A} {f : A → Action StoreError B}
    → Answers Any m
    → ((a : A) → Answers Q (f a))
    → Answers Q (m >>= f)
Answers-then {Q = Q} {m = m} {f = f} k l = Answers-bind Any Q m f k (λ a _. l a)

pub now-Answers : (env : Env) → Answers Any (now env)
unfolding now
now-Answers env = record { answers = λ w. (env.clock w.reads, tt, refl, refl) }
