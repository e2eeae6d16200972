-- ===== src/Worker/Emissions.antt =====
-- What a pass of the worker writes.
use mathlib.Core.List.{append-nil, append_assoc}
use metery.Prelude.{
  pos, ltb_ℤ, true, false, none, some, List, [], ◌∷◌, ◌++◌, any, All, ◌≡◌, refl, sym, ap,
  Bool-cases, inl, inr, none≢some, some_inj,
}
use metery.Time.{after}
use metery.Store.Rows.{GrantRow}
use metery.Store.Constraints.{same_grant}
use metery.Store.Db.{Db, Env, World}
use metery.Store.Db.Keeps.{Relation, Keeps, Keeps-try_modify}
use metery.Store.Entitlements.{stored_grant, add_grant, create_grant}
use metery.Service.Rpc.{Codec}
use metery.Worker.Kept.{process_recurrence-Keeps}
use metery.Worker.{process_recurrence}

-- A grant that the worker may write: it is not effective after its creation, it is not voided, and
-- its amount is positive.
pub record IsEmission (g : GrantRow) : Type 0 where
  pub due : after g.effective_at g.created_at ≡ false
  pub unvoided : g.voided_at ≡ none
  pub positive : ltb_ℤ (pos 0) g.amount ≡ true

-- Nothing but the grants changed, and emissions were added behind them.
pub record Emits (d e : Db) : Type 0 where
  pub new : List GrantRow
  pub appended : e ≡ record d { grants = d.grants ++ new }
  pub emissions : All IsEmission new

All-append :
    (xs ys : List GrantRow) → All IsEmission xs → All IsEmission ys → All IsEmission (xs ++ ys)
All-append [] ys hx hy = hy
All-append (x ∷ xs) ys hx hy = (hx.0, All-append xs ys hx.1 hy)

abbrev emits : Relation
emits = record {
  rel = Emits;
  rel_refl = λ d. record {
    new = [];
    appended = ap (λ gs. record d { grants = gs }) (sym (append-nil d.grants));
    emissions = tt;
  };
  rel_trans = λ d e f g h. record {
    new = g.new ++ h.new;
    appended =
        rw (h.appended, g.appended)
          (ap (λ gs. record d { grants = gs }) (append_assoc d.grants g.new h.new));
    emissions = All-append g.new h.new g.emissions h.emissions;
  };
}

add_grant-Emits :
    (g : GrantRow)
    → after g.effective_at g.created_at ≡ false
    → (d e : Db) → add_grant g d ≡ some e
    → Emits d e
add_grant-Emits g due d e eq = elim (Bool-cases (ltb_ℤ (pos 0) g.amount)) [
  | inr low ↦ absurd (none≢some (rw low at eq))
  | inl high ↦ elim (Bool-cases (any (same_grant (stored_grant g)) d.grants)) [
    | inl clash ↦ absurd (none≢some (rw (high, clash) at eq))
    | inr apart ↦ record {
      new = stored_grant g ∷ [];
      appended = sym (some_inj (rw (high, apart) at eq));
      emissions = (record { due = due; unvoided = refl; positive = high }, tt);
    }
  ]
]

create_grant-Keeps :
    (g : GrantRow) → after g.effective_at g.created_at ≡ false → Keeps emits (create_grant g)
unfolding create_grant
create_grant-Keeps g due = Keeps-try_modify emits _ (add_grant-Emits g due)

-- For any codec, environment and world, a pass of the worker changes nothing but the grants, adds
-- rows behind those that are there, and each row that it adds has a positive amount, is not
-- voided, and is effective no later than it is created.
pub process_recurrence-Emits :
    {M : Type 0} (codec : Codec M) (env : Env) (w : World)
    → Emits w.db (process_recurrence codec env w).1.db
process_recurrence-Emits codec env w =
    (process_recurrence-Keeps emits (λ g due _. create_grant-Keeps g due) codec env).kept w
