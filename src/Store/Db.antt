-- ===== src/Store/Db.antt =====
-- The database behind `Store` of internal/store/store.go, with the constraints of
-- internal/store/migrations/, and the actions on it.
pub mod Keeps
pub mod Inserts
use metery.Prelude.{
  ◌≡◌, refl, sym, ap, ◌∙◌, ℕ, ◌+◌, ℤ, Option, none, some, String, List, Option-cases, inl, inr,
}
use metery.Time.{Time, truncate_second}
use metery.Ledger.Types.{GrantState}
use metery.Store.Rows.{
  Customer, Meter, Feature, EntitlementRow, GrantRow, Event, SnapshotRow, PlanRow, SubscriptionRow,
  User,
}

pub record Db : Type 0 where
  pub customers : List Customer
  pub meters : List Meter
  pub features : List Feature
  pub entitlements : List EntitlementRow
  pub grants : List GrantRow
  pub events : List Event
  pub snapshots : List SnapshotRow
  pub plans : List PlanRow
  pub subscriptions : List SubscriptionRow
  pub users : List User

-- `Rebind` and the JSON paths depend on the driver.
pub data Driver : Type 0 where
  sqlite pgx : Driver

-- What the program calls and does not implement: the readings of the clock, the ULID generator (by
-- the number of the call), the JSON of snapshots, and the database's own evaluation of an aggregate
-- over JSON payloads, by the aggregate's name and the path parameter: the float64 it answers with,
-- cut to an int64, or none for a payload that it cannot read as a number.
pub record Env : Type 0 where
  pub clock : ℕ → Time
  pub ulid : ℕ → String
  pub driver : Driver
  pub encode_states : List GrantState → String
  pub decode_states : String → Option (List GrantState)
  pub aggregate : String → String → List Event → Option ℤ

-- The database, and how often the clock and the generator have been read.
pub record World : Type 0 where
  pub db : Db
  pub reads : ℕ
  pub serial : ℕ

-- `sql.ErrNoRows`, a broken constraint, a text that does not decode, and the store's own refusals.
pub data StoreError : Type 0 where
  no_rows constraint corrupt no_value_property unsupported_aggregation : StoreError

pub data Result {ℓ κ} (E : Type ℓ) (A : Type κ) : Type (ℓ ⊔ κ) where
  ok : A → Result E A
  err : E → Result E A

pub ok≢err : {E A : Type 0} {a : A} {e : E} → ok a ≡ err e → ⊥
ok≢err h = cc

pub ok_inj : {E A : Type 0} {a b : A} → ◌≡◌ {A = Result E A} (ok a) (ok b) → a ≡ b
ok_inj h = cc

-- An action keeps what it has written when it fails: only a transaction takes it back.
abbrev pub Action : Type 0 → Type 0 → Type 0
Action E A = World → Result E A × World

infixl 5 ◌>>=◌ ◌>>◌
abbrev pub ◌>>=◌ : {E A B : Type 0} → Action E A → (A → Action E B) → Action E B
◌>>=◌ m f w = let (r, w') = m w in elim r [ ok a ↦ f a w' | err e ↦ (err e, w') ]

abbrev pub ◌>>◌ : {E A B : Type 0} → Action E A → Action E B → Action E B
m >> k = m >>= λ _. k

module _ {E A : Type 0} where
  abbrev pub pure : A → Action E A
  pure a w = (ok a, w)

  abbrev pub fail : E → Action E A
  fail e w = (err e, w)

  abbrev pub gets : (Db → A) → Action E A
  gets f w = (ok (f w.db), w)

  -- The value, or an error where there is none.
  abbrev pub or_fail : Option A → E → Action E A
  or_fail none e = fail e
  or_fail (some a) e = pure a

  -- `BeginTxx … Commit`, with the deferred `Rollback`: an error brings back the tables.
  unfoldable pub transaction : Action E A → Action E A
  transaction m w =
      let (r, w') = m w in elim r [ ok a ↦ (ok a, w') | err e ↦ (err e, record w' { db = w.db }) ]

unfoldable pub modify : {E : Type 0} → (Db → Db) → Action E (Unit {0})
modify f w = (ok tt, record w { db = f w.db })

-- A write that a constraint may refuse.
unfoldable pub try_modify : (Db → Option Db) → Action StoreError (Unit {0})
try_modify f w = elim (f w.db) [
  | none ↦ (err constraint, w)
  | some d ↦ (ok tt, record w { db = d })
]

-- Of an action in two parts that succeeds, both parts do.
pub bind_ok :
    {E A B : Type 0} (m : Action E A) (f : A → Action E B) (b : B) (w w' : World)
    → (m >>= f) w ≡ (ok b, w')
    → (a : A) × (w1 : World) × (m w ≡ (ok a, w1)) × (f a w1 ≡ (ok b, w'))
bind_ok {E} {A} {B} m f b w w' e = through (m w) refl e
  where
    through :
        (s : Result E A × World)
        → m w ≡ s
        → ((λ (x : World). s) >>= f) w ≡ (ok b, w')
        → (a : A) × (w1 : World) × (m w ≡ (ok a, w1)) × (f a w1 ≡ (ok b, w'))
    through (ok a, w1) same rest = (a, w1, same, rest)
    through (err x, w1) same rest = absurd (ok≢err (sym (ap (λ s. s.0) rest)))

pub try_modify-none :
    (f : Db → Option Db) (w : World) → f w.db ≡ none → try_modify f w ≡ (err constraint, w)
unfolding try_modify
try_modify-none f w n = rw (n, try_modify) refl

pub try_modify-some :
    (f : Db → Option Db) (w : World) (d : Db)
    → f w.db ≡ some d
    → try_modify f w ≡ (ok tt, record w { db = d })
unfolding try_modify
try_modify-some f w d e = rw (e, try_modify) refl

-- A write that succeeded.
pub try_modify_ok :
    (f : Db → Option Db) (w w' : World) (a : Unit {0})
    → try_modify f w ≡ (ok a, w')
    → f w.db ≡ some w'.db
unfolding try_modify
try_modify_ok f w w' a e = elim (Option-cases (f w.db)) [
  | inl n ↦ absurd (ok≢err (sym (ap (λ s. s.0) (rw (n, try_modify) at e))))
  | inr (d, s) ↦ s ∙ ap (λ t. some t.1.db) (rw (s, try_modify) at e)
]

pub transaction_ok :
    {A : Type 0} (m : Action StoreError A) (a : A) (w w' : World)
    → transaction m w ≡ (ok a, w')
    → m w ≡ (ok a, w')
unfolding transaction
transaction_ok {A} m a w w' h = through (m w) h
  where
    through :
        (t : Result StoreError A × World)
        → transaction (λ (x : World). t) w ≡ (ok a, w')
        → t ≡ (ok a, w')
    through (ok b, w1) h = h
    through (err e, w1) h = absurd (ok≢err (sym (ap (λ t. t.0) h)))

-- `NewULID()`.
unfoldable pub new_ulid : {E : Type 0} → Env → Action E String
new_ulid env w = (ok (env.ulid w.serial), record w { serial = w.serial + 1 })

-- `time.Now().UTC()`, and the same cut to the second.
unfoldable pub now : {E : Type 0} → Env → Action E Time
now env w = (ok (env.clock w.reads), record w { reads = w.reads + 1 })

unfoldable pub now_second : {E : Type 0} → Env → Action E Time
now_second env w = (ok (truncate_second (env.clock w.reads)), record w { reads = w.reads + 1 })
