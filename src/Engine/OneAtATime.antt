-- ===== src/Engine/OneAtATime.antt =====
-- internal/deploy/engine.go and internal/store: one deploy of an app at a time.
use project_talos.Prelude.{
  ℕ, String, ◌≡◌, refl, sym, ap, ◌∙◌, subst, ◌<◌, ◌≤◌, suc, true, false, none, List, [], ◌∷◌, ◌++◌,
  All, where_rows, head?, ◌⊎◌, Bool-cases, inl, inr, ◌==◌, nat_eq, nat_beq_iff, arith,
}
use project_talos.Domain.{App, AppType, Deploy, deploy_in_progress, wrap, Result, ok, err}
use project_talos.Store.{Database, Sqlite, first_row}
use project_talos.Store.Deploys.{app_exists, inserted_deploy, create_deploy, get_latest_deploy}
use project_talos.Store.Apps.{get_app}
use project_talos.Store.Latest.{SortLaws, IsRow, IsNewest, latest-IsNewest}
use project_talos.Engine.Interface.{Environment}
use project_talos.Engine.Request.{new_deploy, deploy}
use project_talos.Engine.Accept.{accepted_deploy, refused_in_progress, runs_when_free}

-- The engine works on the SQLite stores.
pub record IsStored (env : Environment Database) (sqlite : Sqlite) : Type 0 where
  pub get_app_is : (id : ℕ) (db : Database) → env.get_app id db ≡ get_app sqlite id db
  pub get_latest_is :
      (id : ℕ) (db : Database) → env.get_latest_deploy id db ≡ get_latest_deploy sqlite id db
  pub create_is : (d : Deploy) (db : Database) → env.create_deploy d db ≡ create_deploy sqlite d db

-- Every deploy of the app is from an earlier second than the database's clock.
abbrev pub AllOlder : ℕ → Database → Type 0
AllOlder app_id db = All (λ d. (d.app_id == app_id) ≡ true → d.created_at < db.clock) db.deploys

-- A row of the table with a new row at its end is the new row, or has what the old rows have.
IsRow-append :
    (P : Deploy → Type 0) (rows : List Deploy) (new d : Deploy)
    → All P rows
    → IsRow d (rows ++ (new ∷ []))
    → (d ≡ new) ⊎ P d
IsRow-append P [] new d h (inl e) = inl e
IsRow-append P [] new d h (inr m) = elim m [ ]
IsRow-append P (x ∷ rows) new d h (inl e) = inr (subst P (sym e) h.0)
IsRow-append P (x ∷ rows) new d h (inr m) = IsRow-append P rows new d h.1 m

All-last :
    (P : Deploy → Type 0) (rows : List Deploy) (new : Deploy) → All P (rows ++ (new ∷ [])) → P new
All-last P [] new h = h.0
All-last P (x ∷ rows) new h = All-last P rows new h.1

module _ (sqlite : Sqlite) (laws : SortLaws sqlite) where
  -- The newest deploy of an app that has just been given a new one is the new one.
  newest-is_new :
      (app_id : ℕ) (rows : List Deploy) (new : Deploy) (answer : Result Deploy)
      → (new.app_id == app_id) ≡ true
      → All (λ d. (d.app_id == app_id) ≡ true → d.created_at < new.created_at) rows
      → IsNewest (λ d. d.app_id == app_id) (rows ++ (new ∷ [])) answer
      → answer ≡ ok new
  newest-is_new app_id rows new (err e) i old h =
      absurd (true-ne (sym i ∙ All-last (λ d. (d.app_id == app_id) ≡ false) rows new h.1))
    where
      true-ne : true ≡ false → ⊥
      true-ne p = cc
  newest-is_new app_id rows new (ok d) i old (m, w, g) =
      elim (IsRow-append (λ r. (r.app_id == app_id) ≡ true → r.created_at < new.created_at) rows new
        d old m) [
          | inl e ↦ ap ok e
          | inr lt ↦ absurd (
              omega (
                arith,
                lt w,
                All-last (λ y. (y.app_id == app_id) ≡ true → y.created_at ≤ d.created_at) rows new g
                    i,
              ))
        ]

  create_deploy-rows :
      (d d' : Deploy) (db : Database)
      → d.rollback_of_id ≡ none
      → (create_deploy sqlite d db).0 ≡ ok d'
      → ((create_deploy sqlite d db).1.apps ≡ db.apps)
        × ((create_deploy sqlite d db).1.deploys
            ≡ db.deploys ++ (inserted_deploy d (suc db.last_deploy_id) db.clock ∷ []))
  unfolding create_deploy
  create_deploy-rows d d' db n h = elim (Bool-cases (app_exists d.app_id db.apps)) [
    | inl p ↦ rw (p, n) (refl, refl)
    | inr p ↦
        let q : (create_deploy sqlite d db).0
            ≡ err (wrap "insert deploy" sqlite.constraint_failed) =
          rw (p) refl in
        absurd cc
  ]

  get_app-same_apps :
      (app_id : ℕ) (db db' : Database)
      → db'.apps ≡ db.apps
      → (get_app sqlite app_id db').0 ≡ (get_app sqlite app_id db).0
  unfolding get_app
  get_app-same_apps app_id db db' p =
      ap (λ apps. first_row (head? (where_rows (λ a. a.id == app_id) apps))) p

  get_latest_deploy-same :
      (app_id : ℕ) (db db' : Database)
      → db'.deploys ≡ db.deploys
      → (get_latest_deploy sqlite app_id db').0 ≡ (get_latest_deploy sqlite app_id db).0
  unfolding get_latest_deploy
  get_latest_deploy-same app_id db db' p =
      ap
        (λ rows. first_row (
          head?
            (sqlite.descending (λ d. d.created_at) (where_rows (λ d. d.app_id == app_id) rows))))
        p

  module _ (env : Environment Database) (stored : IsStored env sqlite) where
    reads :
        (app_id : ℕ) (db : Database)
        → ((env.get_app app_id db).1 ≡ db)
          × ((env.get_latest_deploy app_id (env.get_app app_id db).1).1 ≡ db)
          × ((env.get_latest_deploy app_id (env.get_app app_id db).1).0
              ≡ (get_latest_deploy sqlite app_id db).0)
    unfolding get_app get_latest_deploy
    reads app_id db =
        rw (stored.get_app_is app_id db, stored.get_latest_is app_id db) (refl, refl, refl)

    latest_is_new :
        (app_id : ℕ) (d₀ d : Deploy) (db : Database)
        → d₀.rollback_of_id ≡ none
        → (d₀.app_id == app_id) ≡ true
        → AllOlder app_id db
        → (create_deploy sqlite d₀ db).0 ≡ ok d
        → (get_latest_deploy sqlite app_id (create_deploy sqlite d₀ db).1).0
          ≡ ok (inserted_deploy d₀ (suc db.last_deploy_id) db.clock)
    latest_is_new app_id d₀ d db n i old h = newest-is_new app_id db.deploys _ _ i old (
        subst
          (λ rows.
            IsNewest (λ d. d.app_id == app_id) rows
              (get_latest_deploy sqlite app_id (create_deploy sqlite d₀ db).1).0)
          (create_deploy-rows d₀ d db n h).1
          (latest-IsNewest sqlite laws app_id (create_deploy sqlite d₀ db).1).0)

    -- The table after a deploy was accepted, and the deploy of it.
    after_accepted :
        (app_id : ℕ) (image_ref commit_sha branch triggered_by : String) (a : App) (d : Deploy)
        (db : Database)
        → (deploy env app_id image_ref commit_sha branch triggered_by db).0 ≡ ok (a, d)
        → let d₀ = new_deploy app_id image_ref commit_sha branch triggered_by none in
          ((deploy env app_id image_ref commit_sha branch triggered_by db).1
            ≡ (create_deploy sqlite d₀ db).1)
          × ((create_deploy sqlite d₀ db).0 ≡ ok d)
          × ((get_app sqlite app_id db).0 ≡ ok a)
          × (a.app_type ≡ AppType.managed)
    after_accepted app_id image_ref commit_sha branch triggered_by a d db h =
        let (g, (m, l, c)) =
          accepted_deploy env app_id image_ref commit_sha branch triggered_by a d db h in
        let d₀ = new_deploy app_id image_ref commit_sha branch triggered_by none in
        (
          runs_when_free env app_id image_ref commit_sha branch triggered_by a db g m l
              ∙ ap (λ w. (env.create_deploy d₀ w).1) (reads app_id db).1
              ∙ ap (λ r. r.1) (stored.create_is d₀ db),
          ap (λ r. r.0) (sym (stored.create_is d₀ db))
              ∙ ap (λ w. (env.create_deploy d₀ w).0) (sym (reads app_id db).1)
              ∙ c,
          ap (λ r. r.0) (sym (stored.get_app_is app_id db)) ∙ g,
          m,
        )

    -- Once a deploy of an app was accepted, a second one is refused on every database whose apps and
    -- deploys are as the first request left them, if the first was requested in a later second than
    -- any earlier deploy of the app. So the clock and the other tables may have changed in between,
    -- but the first deploy has not been run, and no deploy was recorded after it.
    pub second_deploy_refused :
        (app_id : ℕ) (image_ref commit_sha branch triggered_by : String) (a : App) (d : Deploy)
        (db : Database)
        → AllOlder app_id db
        → (deploy env app_id image_ref commit_sha branch triggered_by db).0 ≡ ok (a, d)
        → (later : Database)
        → later.apps ≡ (deploy env app_id image_ref commit_sha branch triggered_by db).1.apps
        → later.deploys ≡ (deploy env app_id image_ref commit_sha branch triggered_by db).1.deploys
        → (image_ref' commit_sha' branch' triggered_by' : String)
        → (deploy env app_id image_ref' commit_sha' branch' triggered_by' later).0
          ≡ err deploy_in_progress
    second_deploy_refused app_id image_ref commit_sha branch triggered_by a d db old h later apps
          deploys i' c' b' t' =
        let (world, made, found, m) =
          after_accepted app_id image_ref commit_sha branch triggered_by a d db h in
        let d₀ = new_deploy app_id image_ref commit_sha branch triggered_by none in
        let db' = (create_deploy sqlite d₀ db).1 in
        ap (λ r. r.0)
          (refused_in_progress env app_id i' c' b' t' a
            (inserted_deploy d₀ (suc db.last_deploy_id) db.clock) later
            (ap (λ r. r.0) (stored.get_app_is app_id later)
              ∙ get_app-same_apps app_id db' later (apps ∙ ap (λ w. w.apps) world)
              ∙ get_app-same_apps app_id db db' (create_deploy-rows d₀ d db refl made).0
              ∙ found)
            m
            ((reads app_id later).2
              ∙ get_latest_deploy-same app_id db' later (deploys ∙ ap (λ w. w.deploys) world)
              ∙ latest_is_new app_id d₀ d db refl ((nat_beq_iff app_id app_id).1 refl) old made)
            refl)
