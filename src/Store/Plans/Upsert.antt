-- ===== src/Store/Plans/Upsert.antt =====
-- What `UpsertUser` leaves in the table of users.
use mathlib.Core.Option
use metery.Prelude.{
  ◌+◌, Bool, true, Option, some, String, List, [], ◌∷◌, any, find?, ◌==◌, ==_refl, eq_iff, ◌≡◌,
  refl, sym, ap, ◌∙◌, ◌⊎◌, inl, inr, arith, Bool-cases, Option-cases, none≢some, some_inj,
}
use metery.Store.Rows.{User}
use metery.Store.Table.{update_where}
use metery.Store.Table.Update.{find?-last}
use metery.Store.Db.{
  Db, Env, World, ok, err, constraint, try_modify, try_modify-none, try_modify-some, Result,
  StoreError, ◌>>◌, new_ulid, now,
}
use metery.Store.Plans.{upsert, upsert_user, get_user_by_google_id}

-- The user that the table has for a Google account, with the account's email and name.
pub record IsUserOf (google_id email name : String) (users : List User) (u : User) : Type 0 where
  pub found : find? (λ r. r.google_id == google_id) users ≡ some u
  pub same_google_id : u.google_id ≡ google_id
  pub same_email : u.email ≡ email
  pub same_name : u.name ≡ name

module _ (u : User) where
  abbrev is_it : User → Bool
  is_it r = r.google_id == u.google_id

  abbrev renamed : User → User
  renamed r = record r { email = u.email; name = u.name }

  IsUserOf-update :
      (rows : List User)
      → any is_it rows ≡ true
      → (v : User) × IsUserOf u.google_id u.email u.name (update_where is_it renamed rows) v
  IsUserOf-update [] h = absurd (ground (arith, h))
  IsUserOf-update (r ∷ rows) h = elim (Bool-cases (is_it r)) [
    | inl e ↦ (
      renamed r,
      record {
        found = rw (e, e) refl;
        same_google_id = (eq_iff r.google_id u.google_id).0 e;
        same_email = refl;
        same_name = refl;
      },
    )
    | inr e ↦
        let (v, i) = IsUserOf-update rows (ground (arith, e, h)) in
        (
          v,
          record {
            found = rw (e, e) i.found;
            same_google_id = i.same_google_id;
            same_email = i.same_email;
            same_name = i.same_name;
          },
        )
  ]

  upsert-IsUserOf :
      (rows after : List User)
      → upsert u rows ≡ some after
      → (v : User) × IsUserOf u.google_id u.email u.name after v
  upsert-IsUserOf rows after e = elim (Bool-cases (any is_it rows)) [
    | inl there ↦ rw (sym (some_inj (rw there at e))) (IsUserOf-update rows there)
    | inr new ↦ elim (Bool-cases (any (λ b. u.id == b.id) rows)) [
      | inl clash ↦ absurd (none≢some (rw (new, clash) at e))
      | inr apart ↦ rw (sym (some_inj (rw (new, apart) at e))) (
        u,
        record {
          found = find?-last is_it u rows new (==_refl u.google_id);
          same_google_id = refl;
          same_email = refl;
          same_name = refl;
        },
      )
    ]
  ]

-- Either it fails and the tables stay, or it answers with the stored user.
pub upsert_user_lem :
    (env : Env) (google_id email name : String) (w : World)
    → let s = upsert_user env google_id email name w in
      ((s.0 ≡ err constraint) × (s.1.db ≡ w.db))
      ⊎ ((u : User) × (s.0 ≡ ok u) × IsUserOf google_id email name s.1.db.users u)
unfolding upsert_user get_user_by_google_id new_ulid now
upsert_user_lem env google_id email name w =
    let u : User = record {
      id = env.ulid w.serial;
      google_id = google_id;
      email = email;
      name = name;
      created_at = env.clock w.reads;
    } in
    let w1 : World = record w { reads = w.reads + 1; serial = w.serial + 1 } in
    let write : Db → Option Db =
      λ db. Option.map (λ rows. record db { users = rows }) (upsert u db.users) in
    let then_get : Result StoreError (Unit {0}) × World → Result StoreError User × World =
      λ s. ((λ (x : World). s) >> get_user_by_google_id google_id) w1 in
    elim (Option-cases (upsert u w.db.users)) [
      | inl n ↦
          let t : try_modify write w1 ≡ (err constraint, w1) =
            try_modify-none write w1 (rw n refl) in
          let e : upsert_user env google_id email name w ≡ (err constraint, w1) = ap then_get t in
          inl (rw e (refl, refl))
      | inr (rows, r) ↦
          let (v, i) = upsert-IsUserOf u w.db.users rows r in
          let t : try_modify write w1 ≡ (ok tt, record w1 { db = record w.db { users = rows } }) =
            try_modify-some write w1 (record w.db { users = rows }) (rw r refl) in
          let w2 : World = record w1 { db = record w.db { users = rows } } in
          let e : upsert_user env google_id email name w ≡ (ok v, w2) =
            ap then_get t ∙ rw i.found refl in
          inr (v, rw e refl, rw e i)
    ]
