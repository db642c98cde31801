-- ===== src/Store/Lookups.antt =====
-- internal/store/deploy_repo.go: what a reading statement answers after a writing one.
use project_talos.Prelude.{
  ℕ, String, ◌≡◌, ◌≢◌, refl, ◌∙◌, sym, ap, ◌≤◌, suc, true, false, Option, none, some, List, [], ◌∷◌,
  ◌++◌, All, All-append, All-map, where_rows, update_where, head?, ◌==◌, nat_eq, Bool-cases, inl,
  inr, arith, nat_beq_iff,
}
use project_talos.Domain.{Deploy, ok}
use project_talos.Store.{Database, Sqlite, first_row}
use project_talos.Store.Deploys.{
  app_exists, deploy_reference, inserted_deploy, updated_deploy, create_deploy, get_deploy,
  update_deploy,
}

-- No row has an id that was not given out yet.
abbrev pub IdsGiven : Database → Type 0
IdsGiven db = All (λ d. d.id ≤ db.last_deploy_id) db.deploys

abbrev find : ℕ → List Deploy → Option Deploy
find id deploys = head? (where_rows (λ d. d.id == id) deploys)

find-append :
    (id last : ℕ) (rows : List Deploy) (d : Deploy)
    → All (λ row. row.id ≤ last) rows
    → d.id ≡ suc last
    → id ≡ suc last
    → find id (rows ++ (d ∷ [])) ≡ some d
find-append id last [] d h i j = ground (arith, nat_beq_iff d.id id)
find-append id last (x ∷ rows) d h i j =
    ground (arith, nat_beq_iff x.id id, find-append id last rows d h.1 i j)

abbrev updated_row : Deploy → Option Deploy → Option Deploy
updated_row d none = none
updated_row d (some row) = some (updated_deploy d row)

first_row-eq-ok : (o : Option Deploy) (d : Deploy) → first_row o ≡ ok d → o ≡ some d
first_row-eq-ok none d h = absurd cc
first_row-eq-ok (some e) d h = cc

find-here :
    (n : ℕ) (x : Deploy) (rows : List Deploy) → (x.id == n) ≡ true → find n (x ∷ rows) ≡ some x
find-here n x rows p = rw (p) refl

find-later :
    (n : ℕ) (x : Deploy) (rows : List Deploy)
    → (x.id == n) ≡ false
    → find n (x ∷ rows) ≡ find n rows
find-later n x rows p = rw (p) refl

find-updated :
    (n : ℕ) (d row : Deploy) (rows : List Deploy)
    → find n rows ≡ some row
    → find n (update_where (λ r. r.id == n) (updated_deploy d) rows) ≡ some (updated_deploy d row)
find-updated n d row [] h = absurd cc
find-updated n d row (x ∷ rows) h = elim (Bool-cases (x.id == n)) [
  | inl p ↦
      rw (p)
        (find-here n (updated_deploy d x) _ p ∙ ap (updated_row d) (sym (find-here n x rows p) ∙ h))
  | inr p ↦
      rw (p) (find-later n x _ p ∙ find-updated n d row rows (sym (find-later n x rows p) ∙ h))
]

find-other :
    (id n : ℕ) (d : Deploy) (rows : List Deploy)
    → id ≢ n
    → find id (update_where (λ r. r.id == n) (updated_deploy d) rows) ≡ find id rows
find-other id n d [] h = refl
find-other id n d (x ∷ rows) h = elim (Bool-cases (x.id == n)) [
  | inl p ↦ rw (p) (
      find-later id (updated_deploy d x) _ (away p)
      ∙ find-other id n d rows h
      ∙ sym (find-later id x rows (away p)))
  | inr p ↦ elim (Bool-cases (x.id == id)) [
    | inl q ↦ rw (p) (find-here id x _ q ∙ sym (find-here id x rows q))
    | inr q ↦ rw (p) (find-later id x _ q ∙ find-other id n d rows h ∙ sym (find-later id x rows q))
  ]
]
  where
    away : (x.id == n) ≡ true → (x.id == id) ≡ false
    away p = ground (arith, nat_beq_iff x.id n, nat_beq_iff x.id id, h)

abbrev image : Option Deploy → Option String
image none = none
image (some d) = some d.image_ref

-- The image of a deploy's row
abbrev pub stored_image : ℕ → Database → Option String
stored_image id db = image (find id db.deploys)

image_of_updated :
    (id : ℕ) (d : Deploy) (rows : List Deploy)
    → image (find id (update_where (λ r. r.id == d.id) (updated_deploy d) rows))
      ≡ image (find id rows)
image_of_updated id d [] = refl
image_of_updated id d (x ∷ rows) = elim (Bool-cases (x.id == d.id)) [
  | inl p ↦ elim (Bool-cases (x.id == id)) [
    | inl q ↦ rw (p, q) refl
    | inr q ↦ rw (p, q) (image_of_updated id d rows)
  ]
  | inr p ↦ elim (Bool-cases (x.id == id)) [
    | inl q ↦ rw (p, q) refl
    | inr q ↦ rw (p, q) (image_of_updated id d rows)
  ]
]

module _ (sqlite : Sqlite) where
  -- The updates, one after the other
  abbrev pub run_updates : List Deploy → Database → Database
  run_updates [] db = db
  run_updates (d ∷ updates) db = run_updates updates (update_deploy sqlite d db).1

  -- A deploy of an app that exists, and that rolls back no deploy or one that exists, is created with
  -- the next id and is found under it: as it was given, but without a container, a log or times, and
  -- created at the database's time. The ids in the table stay those given out.
  create_deploy_get :
      (d : Deploy) (db : Database)
      → IdsGiven db
      → app_exists d.app_id db.apps ≡ true
      → deploy_reference d.rollback_of_id db.deploys ≡ true
      → ((create_deploy sqlite d db).0 ≡ ok (record d { id = suc db.last_deploy_id }))
        × ((get_deploy sqlite (suc db.last_deploy_id) (create_deploy sqlite d db).1).0
            ≡ ok (inserted_deploy d (suc db.last_deploy_id) db.clock))
        × IdsGiven (create_deploy sqlite d db).1
  unfolding create_deploy get_deploy
  create_deploy_get d db h p r =
      rw (p, r)
        (
          refl,
          ap first_row (find-append _ db.last_deploy_id db.deploys _ h refl refl),
          All-append (λ row. row.id ≤ suc db.last_deploy_id) db.deploys _
              (All-map (λ row q. omega (arith, q)) db.deploys h) (omega arith, tt),
        )

  -- A deploy that is updated reads back with the columns that the statement writes, and with the
  -- others (the image, the commit, the branch, the app and the time of creation) as they were; no
  -- other deploy changes.
  update_deploy_get :
      (d row : Deploy) (other : ℕ) (db : Database)
      → (get_deploy sqlite d.id db).0 ≡ ok row
      → other ≢ d.id
      → (get_deploy sqlite d.id (update_deploy sqlite d db).1).0 ≡ ok (updated_deploy d row)
        × (get_deploy sqlite other (update_deploy sqlite d db).1).0 ≡ (get_deploy sqlite other db).0
  unfolding update_deploy get_deploy
  update_deploy_get d row other db h o = (
    ap first_row (find-updated d.id d row db.deploys (first_row-eq-ok _ row h)),
    ap first_row (find-other other d.id d db.deploys o),
  )

  image-update_deploy :
      (id : ℕ) (d : Deploy) (db : Database)
      → stored_image id (update_deploy sqlite d db).1 ≡ stored_image id db
  unfolding update_deploy
  image-update_deploy id d db = image_of_updated id d db.deploys

  -- A deploy's image in the table is the image it was created with: no sequence of updates of deploys
  -- changes it, so an image that is found after the deploy was created is never stored.
  stored_image_never_changes :
      (id : ℕ) (updates : List Deploy) (db : Database)
      → stored_image id (run_updates updates db) ≡ stored_image id db
  stored_image_never_changes id [] db = refl
  stored_image_never_changes id (d ∷ updates) db =
      stored_image_never_changes id updates (update_deploy sqlite d db).1
      ∙ image-update_deploy id d db
