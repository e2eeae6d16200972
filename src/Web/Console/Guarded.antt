-- ===== src/Web/Console/Guarded.antt =====
-- Who sees a page of the console.
use metery.Prelude.{
  false, Option, none, some, String, List, find?, ◌==◌, ◌≡◌, ◌≢◌, ◌⊎◌, inl, inr, refl, ap, sym, ◌∙◌,
  Bool-cases, Option-cases, eq_iff,
}
use mathlib.Core.Bool.{true≢false}
use metery.Store.Rows.{User}
use metery.Store.Db.{World, Env, Result, ok, StoreError, ◌>>=◌, or_fail, no_rows}
use metery.Store.Plans.{get_user_by_id}
use metery.Service.Rpc.{or_nil}
use metery.Auth.Session.{user_id}
use metery.Web.{current_user, page_for, require_user}
use metery.Web.Pages.{Display, Page, login_html}
use metery.Web.Console.{Route, page_of, serve}
use metery.Web.Console.Viewer.{IsFor, page_of-Answers}

-- The tables stay, and what is answered is the login page, or a page for the user of the session.
pub data IsGuarded (id : String) (w w' : World) (r : Result StoreError Page) : Type 0 where
  stranger :
      w.db ≡ w'.db
      → r ≡ ok login_html
      → (id ≡ "") ⊎ (find? (λ x. x.id == id) w.db.users ≡ none)
      → IsGuarded id w w' r
  welcome :
      (u : User) (p : Page)
      → w.db ≡ w'.db
      → r ≡ ok p
      → id ≢ ""
      → find? (λ x. x.id == id) w.db.users ≡ some u
      → IsFor u p
      → IsGuarded id w w' r

module _ (display : Display) (env : Env) (sign : String → String) where
  abbrev looked_up : World → Option User → Result StoreError (Option User) × World
  looked_up w o = or_nil (λ _. or_fail o no_rows w) w

  or_nil-get_user_by_id :
      (id : String) (w : World) (o : Option User)
      → find? (λ x. x.id == id) w.db.users ≡ o
      → or_nil {E = StoreError} (get_user_by_id id) w ≡ (ok o, w)
  unfolding get_user_by_id
  or_nil-get_user_by_id id w none e = ap (looked_up w) e
  or_nil-get_user_by_id id w (some u) e = ap (looked_up w) e

  serve_known :
      (cookies : List (String × String)) (route : Route) (w : World) (o : Option User)
      → (user_id sign cookies == "") ≡ false
      → find? (λ x. x.id == user_id sign cookies) w.db.users ≡ o
      → serve display env sign cookies route w ≡ page_for sign (page_of display env route) o w
  unfolding serve require_user current_user
  serve_known cookies route w o e n =
      let k = page_for sign (page_of display env route) in
      let found = or_nil-get_user_by_id (user_id sign cookies) w o n in
      let then_page : Result StoreError (Option User) × World → Result StoreError Page × World =
        λ s. ((λ (x : World). s) >>= k) w in
      rw e (ap then_page found)

  -- For any route of the console, cookies and world, the tables stay as they are, and either
  -- the session cookie names no stored user and the answer is the login page, or it names a
  -- stored user and the answer is a page made for that user or says that there is no such page.
  pub serve-IsGuarded :
      (cookies : List (String × String)) (route : Route) (w : World)
      → let s = serve display env sign cookies route w in IsGuarded (user_id sign cookies) w s.1 s.0
  unfolding serve require_user current_user page_for
  serve-IsGuarded cookies route w =
      let id = user_id sign cookies in
      elim (Bool-cases (id == "")) [
        | inl e ↦ rw e (stranger refl refl (inl ((eq_iff id "").0 e)))
        | inr e ↦
            let named : id ≢ "" = λ h. true≢false (sym ((eq_iff id "").1 h) ∙ e) in
            elim (Option-cases (find? (λ x. x.id == id) w.db.users)) [
              | inl n ↦ rw (serve_known cookies route w none e n) (stranger refl refl (inr n))
              | inr (u, s) ↦
                  let (p, for_u, r, d) = (page_of-Answers u display env route).answers w in
                  rw (serve_known cookies route w (some u) e s) (welcome u p d r named s for_u)
            ]
      ]
