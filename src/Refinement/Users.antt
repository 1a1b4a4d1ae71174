-- ===== src/Refinement/Users.antt =====
-- `UpdateUser` on a shelf of users.
use k8sgrowthbook_controller.Prelude.{◌≡◌, refl, ◌∙◌, Option, none, some, GoString, Bytes}
use k8sgrowthbook_controller.Documents.User.{User}
use k8sgrowthbook_controller.Effects.{Error, Database, call, user_document, decode_user}
use k8sgrowthbook_controller.Effects.{from_result, ◌>>=◌, attempt}
use k8sgrowthbook_controller.Effects.Runs.{Handler, run, returned}
use k8sgrowthbook_controller.Storage.{insert_one, update_one, by_id, set_document, find_one}
use k8sgrowthbook_controller.Growthbook.User.{users, update_user, update_found, overlay}
use k8sgrowthbook_controller.Refinement.Shelf.{Kind, IsShelf, Lands}
use k8sgrowthbook_controller.Refinement.Upsert.{Plan, upsert, Lands-upsert}
use k8sgrowthbook_controller.Refinement.Landing.{Lands-insert_one}
use k8sgrowthbook_controller.Refinement.Upsert.{upsert-again}
use k8sgrowthbook_controller.Refinement.Landing.{Lands-update_one}

abbrev pub user_kind : (User → Bytes) → Kind User
user_kind encode = record {
  document = user_document;
  decode = λ b. call (decode_user b) from_result;
  id = λ u. u.id;
  encode = encode;
}

abbrev user_plan : User → Database → Plan User
user_plan u db = record {
  id = u.id;
  fresh = insert_one (users db) (user_document u);
  over = λ e. overlay e u;
  commit = λ e b. update_one (users db) (by_id u.id) (set_document b);
}

-- What becomes of a user: the identity given, over the password hash and revision there are.
abbrev pub upserted_user : User → Option User → User
upserted_user u none = u
upserted_user u (some e) = record u { password_hash = e.password_hash; revision = e.revision }

overlaid : (u : User) (o : Option User) → overlay (upserted_user u o) u ≡ upserted_user u o
unfolding overlay
overlaid u none = refl
overlaid u (some e) = refl

module _ {S : Type 0} (db : Database) (h : Handler S) (no_documents : Error) (encode : User → Bytes)
    (stored : GoString → S → Option User)
    (laws : IsShelf h (user_kind encode) (users db) no_documents stored) (u : User) where
  scheme :
      (s : S)
      → run h (update_user u db) s ≡ run h (upsert (user_kind encode) (user_plan u db) (users db)) s
  unfolding update_user update_found upsert ◌>>=◌ attempt find_one from_result
  scheme s = refl

  landing :
      (s : S)
      → Lands stored u.id
          (λ v. v ≡ upserted_user u (stored u.id s))
          s
          (run h (upsert (user_kind encode) (user_plan u db) (users db)) s)
  unfolding overlay
  landing =
      Lands-upsert laws (user_plan u db) (λ o v. v ≡ upserted_user u o)
        (λ t e. Lands-insert_one laws _ t u e refl) (λ e. refl)
        (λ e t q. Lands-update_one laws _ t (overlay e u) e q refl)

  -- On a shelf of users `UpdateUser` succeeds. It puts in, under the user's ID, the user as given if
  -- there was none, and the identity given over the password hash and revision of the one there
  -- was; no other user changes.
  pub update_user_refines :
      (s : S)
      → Lands stored u.id (λ v. v ≡ upserted_user u (stored u.id s)) s (run h (update_user u db) s)
  update_user_refines s = rw (scheme s) (landing s)

  -- On such a shelf a second `UpdateUser` of the same user succeeds and changes nothing at all.
  pub update_user_settles :
      (s : S)
      → let t = (run h (update_user u db) s).1 in run h (update_user u db) t ≡ (returned tt, t)
  update_user_settles s =
      scheme _
      ∙ rw (scheme s) (
          upsert-again laws (user_plan u db) (λ v. v ≡ upserted_user u (stored u.id s)) s
            (run h (upsert (user_kind encode) (user_plan u db) (users db)) s) (landing s)
            (λ v e. rw e (overlaid u (stored u.id s))))
