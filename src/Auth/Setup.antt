-- ===== src/Auth/Setup.antt =====
-- internal/server/handlers/auth.go: how many users the setup makes.
use Prim.Native.String.{len}
use project_talos.Prelude.{
  String, ◌≡◌, refl, ◌≤◌, Bool, not, ◌||◌, Option, none, some, List, [], ◌∷◌, length, is_empty, ltb,
  ◌==◌, string_eq, Bool-cases, inl, inr, arith,
}
use project_talos.Domain.{User, Result, ok, err}
use project_talos.Action.{pure, ◌>>=◌}
use project_talos.Store.{Database, Sqlite}
use project_talos.Store.Users.{create_user, has_users, get_user_by_id, get_user_by_username}
use project_talos.Auth.{Users, Libraries, setup_required, register, hashed}
use project_talos.Auth.Api.{Login, setup, setup_allowed, setup_decoded, setup_valid, signed_up}

-- The users of the database
abbrev pub stored_users : Sqlite → Users Database
stored_users sqlite = record {
  has_users = has_users sqlite;
  create_user = create_user sqlite;
  get_user_by_id = get_user_by_id sqlite;
  get_user_by_username = get_user_by_username sqlite;
}

abbrev pub AtMostOne : Database → Type 0
AtMostOne db = length db.users ≤ 1

module _ (sqlite : Sqlite) (libraries : Libraries Database) where
  abbrev users : Users Database
  users = stored_users sqlite

  abbrev pub run_setups : List (Option Login) → Database → Database
  run_setups [] db = db
  run_setups (req ∷ reqs) db = run_setups reqs (setup users libraries req db).1

  register-AtMostOne :
      (username password : String) (db : Database)
      → db.users ≡ []
      → AtMostOne (register users libraries username password db).1
  unfolding register hashed create_user pure
  register-AtMostOne username password db e = made (libraries.hash_password password db)
    where
      made : (r : Result String) → AtMostOne (hashed users libraries username r db).1
      made (err x) = rw (e) (omega arith)
      made (ok hash) = rw (e) (omega arith)

  signed_up-AtMostOne :
      (r : Result User) (db : Database)
      → AtMostOne db
      → AtMostOne (signed_up users libraries r db).1
  unfolding signed_up
  signed_up-AtMostOne (err e) db one = one
  signed_up-AtMostOne (ok user) db one = one

  abbrev has_nothing : Login → Bool
  has_nothing req = req.username == "" || req.password == ""

  setup_valid-AtMostOne :
      (req : Login) (db : Database)
      → db.users ≡ []
      → AtMostOne db
      → AtMostOne (setup_valid users libraries req db).1
  unfolding setup_valid pure ◌>>=◌
  setup_valid-AtMostOne req db e one = elim (Bool-cases (has_nothing req)) [
    | inl p ↦ rw (p) one
    | inr p ↦ rw (p) (elim (Bool-cases (ltb (len req.password) 8)) [
      | inl q ↦ rw (q) one
      | inr q ↦ rw (q) (signed_up-AtMostOne _ _ (register-AtMostOne req.username req.password db e))
    ])
  ]

  setup_decoded-AtMostOne :
      (req : Option Login) (db : Database)
      → db.users ≡ []
      → AtMostOne db
      → AtMostOne (setup_decoded users libraries req db).1
  unfolding setup_decoded pure
  setup_decoded-AtMostOne none db e one = one
  setup_decoded-AtMostOne (some req) db e one = setup_valid-AtMostOne req db e one

  setup_allowed-AtMostOne :
      (req : Option Login) (db : Database) (rows : List User)
      → db.users ≡ rows
      → AtMostOne db
      → AtMostOne (setup_allowed users libraries req (ok (not (not (is_empty rows)))) db).1
  unfolding setup_allowed pure
  setup_allowed-AtMostOne req db [] e one = setup_decoded-AtMostOne req db e one
  setup_allowed-AtMostOne req db (u ∷ rows) e one = one

  setup-AtMostOne :
      (req : Option Login) (db : Database)
      → AtMostOne db
      → AtMostOne (setup users libraries req db).1
  unfolding setup setup_required has_users ◌>>=◌ pure
  setup-AtMostOne req db one = setup_allowed-AtMostOne req db db.users refl one

  -- From a table with at most one user, any requests to set Talos up, one after the other, leave at
  -- most one user.
  pub setups_make_one_user :
      (reqs : List (Option Login)) (db : Database) → AtMostOne db → AtMostOne (run_setups reqs db)
  setups_make_one_user [] db one = one
  setups_make_one_user (req ∷ reqs) db one =
      setups_make_one_user reqs (setup users libraries req db).1 (setup-AtMostOne req db one)
