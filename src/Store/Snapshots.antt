-- ===== src/Store/Snapshots.antt =====
-- Balance snapshots of internal/store/store.go.
use metery.Prelude.{
  Bool, true, not, Option, none, some, String, List, [], ◌∷◌, filter, find?, ◌==◌, ◌&&◌,
}
use metery.Time.{Time, before}
use metery.Store.Table.{insert_or_ignore, order_by}
use metery.Store.Db.{Env, StoreError, corrupt, Action, ◌>>=◌, ◌>>◌, pure, gets, or_fail, modify}
use metery.Ledger.Types.{Snapshot}
use metery.Store.Rows.{SnapshotRow}
use metery.Store.Constraints.{same_snapshot}

abbrev pub latest_first : SnapshotRow → SnapshotRow → Bool
latest_first a b = before b.as_of a.as_of

-- The rows of `WHERE entitlement_id = ? AND as_of <= ?`.
abbrev pub taken_by : String → Time → SnapshotRow → Bool
taken_by entitlement_id t r = r.entitlement_id == entitlement_id && not (before t r.as_of)

-- The snapshot of a row, if there is a row.
unfoldable pub decode_row : Env → Option SnapshotRow → Action StoreError (Option Snapshot)
decode_row env none = pure none
decode_row env (some r) = do
  state ← or_fail (env.decode_states r.per_grant_state) corrupt
  pure (some (record { as_of = r.as_of; balance = r.balance; per_grant_state = state }))

-- `GetLatestSnapshot`: none if there is no row; an error if the text does not decode.
unfoldable pub get_latest_snapshot : Env → String → Time → Action StoreError (Option Snapshot)
get_latest_snapshot env entitlement_id t = do
  row ← gets (λ db.
      find? (λ r. true) (order_by latest_first (filter (taken_by entitlement_id t) db.snapshots)))
  decode_row env row

abbrev pub to_row : Env → String → Snapshot → SnapshotRow
to_row env entitlement_id s = record {
  entitlement_id = entitlement_id;
  as_of = s.as_of;
  balance = s.balance;
  per_grant_state = env.encode_states s.per_grant_state;
}

-- `SaveSnapshots`: of two snapshots at one boundary the first stays.
unfoldable pub save_snapshots : Env → List Snapshot → String → Action StoreError (Unit {0})
save_snapshots env [] entitlement_id = pure tt
save_snapshots env (s ∷ ss) entitlement_id = do
  modify (λ db. record db {
    snapshots = insert_or_ignore same_snapshot (to_row env entitlement_id s) db.snapshots;
  })
  save_snapshots env ss entitlement_id
