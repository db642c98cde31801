-- ===== src/Store/Users.antt =====
-- internal/store/user_repo.go
use project_talos.Prelude.{
  ℕ, String, Bool, not, [], ◌∷◌, ◌++◌, suc, any, where_rows, head?, is_empty, ◌==◌, nat_eq,
  string_eq, if◌then◌else◌,
}
use project_talos.Domain.{User, wrap, Result, ok, err}
use project_talos.Store.{Database, Sqlite, first_row}
use project_talos.Action.{Action}

module _ (sqlite : Sqlite) where
  unfoldable pub create_user : User → Action Database (Result User)
  create_user u db =
      let id = suc db.last_user_id in
      if any (λ row. row.username == u.username) db.users
      then (err (wrap "insert user" sqlite.constraint_failed), db)
      else (
        ok (record u { id = id }),
        record db {
          users =
              db.users ++ (record u { id = id; created_at = db.clock; updated_at = db.clock } ∷ []);
          last_user_id = id;
        },
      )

  unfoldable pub get_user_by_id : ℕ → Action Database (Result User)
  get_user_by_id id db = (first_row (head? (where_rows (λ u. u.id == id) db.users)), db)

  unfoldable pub get_user_by_username : String → Action Database (Result User)
  get_user_by_username username db =
      (first_row (head? (where_rows (λ u. u.username == username) db.users)), db)

  unfoldable pub has_users : Action Database (Result Bool)
  has_users db = (ok (not (is_empty db.users)), db)
