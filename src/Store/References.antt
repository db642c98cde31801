-- ===== src/Store/References.antt =====
-- internal/store: the references between apps, deploys and their events.
use project_talos.Prelude.{
  ℕ, ◌≡◌, refl, ◌∙◌, Bool, true, false, not, none, List, any, All, All-append, All-map, ◌==◌,
  nat_eq, Bool-cases, inl, inr, arith, nat_beq_iff,
}
use project_talos.Domain.{App, Deploy, DeployEvent}
use project_talos.Store.{Database, Sqlite}
use project_talos.Store.Deploys.{
  app_exists, deploy_exists, deploy_reference, create_deploy, update_deploy, create_deploy_event,
}
use project_talos.Store.Apps.{
  clashes, update_fails, updated_app, delete_fails, without_app, deploys_of, create_app, update_app,
  delete_app,
}
use project_talos.Store.Rows.{
  All-where_rows, where_rows-pass, any-append, any-update_where, any-where_rows, any-where_not,
  All-update_where,
}

abbrev pub HasApp : List App → Deploy → Type 0
HasApp apps d = app_exists d.app_id apps ≡ true

abbrev pub HasDeploy : List Deploy → DeployEvent → Type 0
HasDeploy deploys e = deploy_exists e.deploy_id deploys ≡ true

-- Every deploy belongs to an app and every event to a deploy.
pub record IsValid (db : Database) : Type 0 where
  pub have_app : All (HasApp db.apps) db.deploys
  pub have_deploy : All (HasDeploy db.deploys) db.deploy_events

module _ (sqlite : Sqlite) where
  create_deploy-IsValid :
      (d : Deploy) (db : Database) → IsValid db → IsValid (create_deploy sqlite d db).1
  unfolding create_deploy
  create_deploy-IsValid d db v = elim (Bool-cases (app_exists d.app_id db.apps)) [
    | inl p ↦ elim (Bool-cases (deploy_reference d.rollback_of_id db.deploys)) [
      | inl q ↦
          rw (p, q)
            record {
              have_app = All-append (HasApp db.apps) db.deploys _ v.have_app (p, tt);
              have_deploy =
                  All-map (λ e h. any-append _ db.deploys _ h) db.deploy_events v.have_deploy;
            }
      | inr q ↦ rw (p, q) v
    ]
    | inr p ↦ rw (p) v
  ]

  update_deploy-IsValid :
      (d : Deploy) (db : Database) → IsValid db → IsValid (update_deploy sqlite d db).1
  unfolding update_deploy
  update_deploy-IsValid d db v = record {
    have_app = All-update_where {P = HasApp db.apps} _ _ (λ x p h. h) db.deploys v.have_app;
    have_deploy =
        All-map (λ e h. any-update_where _ _ _ (λ x p. refl) db.deploys ∙ h) db.deploy_events
          v.have_deploy;
  }

  create_deploy_event-IsValid :
      (e : DeployEvent) (db : Database) → IsValid db → IsValid (create_deploy_event sqlite e db).1
  unfolding create_deploy_event
  create_deploy_event-IsValid e db v = elim (Bool-cases (deploy_exists e.deploy_id db.deploys)) [
    | inl p ↦ rw (p) record {
      have_app = v.have_app;
      have_deploy = All-append (HasDeploy db.deploys) db.deploy_events _ v.have_deploy (p, tt);
    }
    | inr p ↦ rw (p) v
  ]

  create_app-IsValid : (a : App) (db : Database) → IsValid db → IsValid (create_app sqlite a db).1
  unfolding create_app
  create_app-IsValid a db v = elim (Bool-cases (any (clashes a) db.apps)) [
    | inl p ↦ rw (p) v
    | inr p ↦ rw (p) record {
      have_app = All-map (λ d h. any-append _ db.apps _ h) db.deploys v.have_app;
      have_deploy = v.have_deploy;
    }
  ]

  update_app-IsValid : (a : App) (db : Database) → IsValid db → IsValid (update_app sqlite a db).1
  unfolding update_app
  update_app-IsValid a db v = elim (Bool-cases (update_fails a db)) [
    | inl p ↦ rw (p) v
    | inr p ↦ rw (p) record {
      have_app =
          All-map
            (λ d h.
              any-update_where _ (λ row. row.id == a.id) (updated_app a db.clock) (λ x q. refl)
                db.apps
              ∙ h)
            db.deploys v.have_app;
      have_deploy = v.have_deploy;
    }
  ]

  not-true : (b : Bool) → not b ≡ true → b ≡ false
  not-true b q = ground arith

  without_app-IsValid : (id : ℕ) (db : Database) → IsValid db → IsValid (without_app id db)
  without_app-IsValid id db v = record {
    have_app =
        All-where_rows {P = HasApp db.apps} {Q = HasApp (without_app id db).apps}
          (λ d. not (d.app_id == id))
          (λ d q h.
            any-where_rows (λ a. a.id == d.app_id) (λ a. not (a.id == id))
              (λ a i. other_app a d q i) db.apps h)
          db.deploys v.have_app;
    have_deploy =
        All-where_rows {P = HasDeploy db.deploys} {Q = HasDeploy (without_app id db).deploys}
          (λ e. not (deploy_exists e.deploy_id (deploys_of id db.deploys)))
          (λ e q h.
            any-where_not (λ d. d.id == e.deploy_id) (λ d. d.app_id == id) db.deploys h
              (not-true _ q))
          db.deploy_events v.have_deploy;
  }
    where
      other_app :
          (a : App) (d : Deploy)
          → not (d.app_id == id) ≡ true
          → (a.id == d.app_id) ≡ true
          → not (a.id == id) ≡ true
      other_app a d q i =
          ground (arith, nat_beq_iff a.id d.app_id, nat_beq_iff a.id id, nat_beq_iff d.app_id id)

  delete_app-IsValid : (id : ℕ) (db : Database) → IsValid db → IsValid (delete_app sqlite id db).1
  unfolding delete_app
  delete_app-IsValid id db v = elim (Bool-cases (delete_fails id db)) [
    | inl p ↦ rw (p) v
    | inr p ↦ rw (p) (without_app-IsValid id db v)
  ]

  -- Every statement that writes apps, deploys or events keeps the references: each deploy belongs to
  -- an app and each event to a deploy, whether the statement succeeds or fails on a constraint.
  pub statements_keep_references :
      (db : Database)
      → IsValid db
      → (a : App) (d : Deploy) (e : DeployEvent) (id : ℕ)
      → IsValid (create_app sqlite a db).1
        × IsValid (update_app sqlite a db).1
        × IsValid (delete_app sqlite id db).1
        × IsValid (create_deploy sqlite d db).1
        × IsValid (update_deploy sqlite d db).1
        × IsValid (create_deploy_event sqlite e db).1
  statements_keep_references db v a d e id = (
    create_app-IsValid a db v,
    update_app-IsValid a db v,
    delete_app-IsValid id db v,
    create_deploy-IsValid d db v,
    update_deploy-IsValid d db v,
    create_deploy_event-IsValid e db v,
  )

  -- An app that is deleted without an error leaves no row of its own, no deploy of its own, and no
  -- event but those of the deploys that are left.
  delete_app_leaves_nothing :
      (id : ℕ) (db : Database)
      → IsValid db
      → (delete_app sqlite id db).0 ≡ none
      → All (λ a. (a.id == id) ≡ false) (delete_app sqlite id db).1.apps
        × All (λ d. (d.app_id == id) ≡ false) (delete_app sqlite id db).1.deploys
        × All
            (HasDeploy (delete_app sqlite id db).1.deploys)
            (delete_app sqlite id db).1.deploy_events
  unfolding delete_app
  delete_app_leaves_nothing id db v = elim (Bool-cases (delete_fails id db)) [
    | inl p ↦ rw (p) (λ q. absurd cc)
    | inr p ↦ rw (p) (λ q. (
      where_rows-pass {Q = λ a. (a.id == id) ≡ false} (λ a. not (a.id == id)) (λ a h. not-true _ h)
          db.apps,
      where_rows-pass {Q = λ d. (d.app_id == id) ≡ false} (λ d. not (d.app_id == id))
          (λ d h. not-true _ h) db.deploys,
      (without_app-IsValid id db v).have_deploy,
    ))
  ]
