-- ===== src/Service/Entitlements/Reads.antt =====
-- What answering for the value of an entitlement writes.
use mathlib.Core.List.{append-nil, append_assoc}
use metery.Prelude.{ℕ, List, [], ◌∷◌, ◌++◌, any, ◌≡◌, refl, sym, ap, Bool-cases, inl, inr}
use metery.Ledger.Deduct.{Sorter}
use metery.Store.Rows.{SnapshotRow}
use metery.Store.Constraints.{same_snapshot}
use metery.Store.Table.{insert_or_ignore}
use metery.Store.Db.{Db, Env, World}
use metery.Store.Db.Keeps.{Relation}
use metery.Service.Rpc.{Codec}
use metery.Service.Kept.Entitlements.{get_entitlement_value-Keeps}
use metery.Service.Entitlements.{GetEntitlementValueRequest, get_entitlement_value}

-- Only snapshots were written, and they stand behind those that were there.
pub record TakesSnapshots (d e : Db) : Type 0 where
  pub new : List SnapshotRow
  pub appended : e ≡ record d { snapshots = d.snapshots ++ new }

abbrev takes : Relation
takes = record {
  rel = TakesSnapshots;
  rel_refl = λ d. record {
    new = [];
    appended = ap (λ rows. record d { snapshots = rows }) (sym (append-nil d.snapshots));
  };
  rel_trans = λ d e f g h. record {
    new = g.new ++ h.new;
    appended =
        rw (h.appended, g.appended)
          (ap (λ rows. record d { snapshots = rows }) (append_assoc d.snapshots g.new h.new));
  };
}

save_one :
    (x : SnapshotRow) (d : Db)
    → TakesSnapshots d (record d { snapshots = insert_or_ignore same_snapshot x d.snapshots })
save_one x d = elim (Bool-cases (any (same_snapshot x) d.snapshots)) [
  | inl there ↦ rw there (takes.rel_refl d)
  | inr apart ↦ rw apart (record { new = x ∷ []; appended = refl })
]

-- For any sorter, codec, fuel, environment, request and world, whatever `GetEntitlementValue`
-- answers, it changes nothing but the snapshots, and the snapshots that were there stay as they
-- are, before those that it adds.
pub get_entitlement_value-TakesSnapshots :
    (sorter : Sorter) {M : Type 0} (codec : Codec M) (fuel : ℕ) (env : Env)
    (req : GetEntitlementValueRequest) (w : World)
    → TakesSnapshots w.db (get_entitlement_value sorter codec fuel env req w).1.db
get_entitlement_value-TakesSnapshots sorter codec fuel env req w =
    (get_entitlement_value-Keeps takes env save_one sorter codec fuel req).kept w
