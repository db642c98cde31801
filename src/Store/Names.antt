-- ===== src/Store/Names.antt =====
-- internal/store/service_repo.go: the names of the services stay different from one another.
use project_talos.Prelude.{
  ℕ, String, ◌≡◌, refl, ◌∙◌, sym, ap, subst, ◌≤◌, suc, All, All-append, All-map, Bool, true, false,
  not, ◌||◌, List, [], ◌∷◌, ◌++◌, where_rows, update_where, ◌==◌, nat_eq, string_eq, nat_beq_iff,
  eq_iff, if◌then◌else◌, Bool-cases, inl, inr, arith,
}
use project_talos.Domain.Service.{Service}
use project_talos.Store.{Database, Sqlite}
use project_talos.Store.Rows.{All-where_rows, All-update_where}
use project_talos.Store.Services.{
  name_taken, service_exists, service_rejected, updated_service, update_service_fails,
  create_service, update_service, delete_service,
}

abbrev pub DifferentNames : List Service → Type 0
DifferentNames [] = Unit
DifferentNames (svc ∷ rest) = (name_taken svc.name rest ≡ false) × DifferentNames rest

taken-append :
    (name : String) (svc : Service) (rows : List Service)
    → name_taken name (rows ++ (svc ∷ [])) ≡ (name_taken name rows || svc.name == name)
taken-append name svc [] = ground arith
taken-append name svc (x ∷ rows) = ground (arith, taken-append name svc rows)

append-DifferentNames :
    (svc : Service) (rows : List Service)
    → name_taken svc.name rows ≡ false
    → DifferentNames rows
    → DifferentNames (rows ++ (svc ∷ []))
append-DifferentNames svc [] n d = (refl, tt)
append-DifferentNames svc (x ∷ rows) n d = (
  ground (arith, eq_iff x.name svc.name, eq_iff svc.name x.name, taken-append x.name svc rows, d.0),
  append-DifferentNames svc rows (ground (arith, n)) d.1,
)

taken-where_rows :
    (name : String) (p : Service → Bool) (rows : List Service)
    → name_taken name rows ≡ false
    → name_taken name (where_rows p rows) ≡ false
taken-where_rows name p [] n = refl
taken-where_rows name p (x ∷ rows) n = ground (arith, taken-where_rows name p rows)

where_rows-DifferentNames :
    (p : Service → Bool) (rows : List Service)
    → DifferentNames rows
    → DifferentNames (where_rows p rows)
where_rows-DifferentNames p [] d = tt
where_rows-DifferentNames p (x ∷ rows) d = elim (Bool-cases (p x)) [
  | inl q ↦ rw (q) (taken-where_rows x.name p rows d.0, where_rows-DifferentNames p rows d.1)
  | inr q ↦ rw (q) (where_rows-DifferentNames p rows d.1)
]

-- Ids are different too, as AUTOINCREMENT gives them.
abbrev pub DifferentIds : List Service → Type 0
DifferentIds [] = Unit
DifferentIds (svc ∷ rest) = (service_exists svc.id rest ≡ false) × DifferentIds rest

module _ (svc : Service) (now : ℕ) where
  abbrev with_update : List Service → List Service
  with_update = update_where (λ row. row.id == svc.id) (updated_service svc now)

  abbrev others : List Service → List Service
  others = where_rows (λ row. not (row.id == svc.id))

  untouched :
      (rows : List Service)
      → service_exists svc.id rows ≡ false
      → (with_update rows ≡ rows) × (others rows ≡ rows)
  untouched [] n = (refl, refl)
  untouched (x ∷ rows) n = elim (Bool-cases (x.id == svc.id)) [
    | inl p ↦ absurd (clash (sym (ap (λ b. if b then true else service_exists svc.id rows) p) ∙ n))
    | inr p ↦
        let (same, all) =
          untouched rows
            (subst (λ b. (if b then true else service_exists svc.id rows) ≡ false) p n) in
        rw (p) (ap (λ r. x ∷ r) same, ap (λ r. x ∷ r) all)
  ]
    where
      clash : true ≡ false → ⊥
      clash h = cc

  -- A name that no other row has and that is not the new one is taken by no row after the update.
  taken-with_update :
      (name : String) (rows : List Service)
      → name_taken name (others rows) ≡ false
      → (svc.name == name) ≡ false
      → name_taken name (with_update rows) ≡ false
  taken-with_update name [] n m = refl
  taken-with_update name (x ∷ rows) n m = ground (arith, taken-with_update name rows, n, m)

  with_update-DifferentNames :
      (rows : List Service)
      → name_taken svc.name (others rows) ≡ false
      → DifferentIds rows
      → DifferentNames rows
      → DifferentNames (with_update rows)
  with_update-DifferentNames [] n i d = tt
  with_update-DifferentNames (x ∷ rows) n i d = elim (Bool-cases (x.id == svc.id)) [
    | inl p ↦
        let gone : service_exists svc.id rows ≡ false =
          ap (λ id. service_exists id rows) (sym ((nat_beq_iff x.id svc.id).0 p)) ∙ i.0 in
        let (same, all) = untouched rows gone in
        rw (p) (
          rw (same) (
            ap (name_taken svc.name) (sym all)
                ∙ subst
                    (λ b.
                      name_taken svc.name (if not b then x ∷ others rows else others rows) ≡ false)
                    p n,
            d.1,
          ))
    | inr p ↦
        let kept : name_taken svc.name (x ∷ others rows) ≡ false =
          subst (λ b. name_taken svc.name (if not b then x ∷ others rows else others rows) ≡ false)
            p n in
        rw (p) (
          taken-with_update x.name rows (taken-where_rows x.name _ rows d.0)
              (ground (arith, kept, eq_iff x.name svc.name, eq_iff svc.name x.name)),
          with_update-DifferentNames rows (ground (arith, kept)) i.1 d.1,
        )
  ]

  exists-with_update :
      (id : ℕ) (rows : List Service) → service_exists id (with_update rows) ≡ service_exists id rows
  exists-with_update id [] = refl
  exists-with_update id (x ∷ rows) = ground (arith, exists-with_update id rows)

  with_update-DifferentIds :
      (rows : List Service) → DifferentIds rows → DifferentIds (with_update rows)
  with_update-DifferentIds [] i = tt
  with_update-DifferentIds (x ∷ rows) i = elim (Bool-cases (x.id == svc.id)) [
    | inl p ↦ rw (p) (exists-with_update x.id rows ∙ i.0, with_update-DifferentIds rows i.1)
    | inr p ↦ rw (p) (exists-with_update x.id rows ∙ i.0, with_update-DifferentIds rows i.1)
  ]

exists-where_rows :
    (id : ℕ) (p : Service → Bool) (rows : List Service)
    → service_exists id rows ≡ false
    → service_exists id (where_rows p rows) ≡ false
exists-where_rows id p [] n = refl
exists-where_rows id p (x ∷ rows) n = ground (arith, exists-where_rows id p rows)

where_rows-DifferentIds :
    (p : Service → Bool) (rows : List Service)
    → DifferentIds rows
    → DifferentIds (where_rows p rows)
where_rows-DifferentIds p [] d = tt
where_rows-DifferentIds p (x ∷ rows) d = elim (Bool-cases (p x)) [
  | inl q ↦ rw (q) (exists-where_rows x.id p rows d.0, where_rows-DifferentIds p rows d.1)
  | inr q ↦ rw (q) (where_rows-DifferentIds p rows d.1)
]

exists-append :
    (id : ℕ) (svc : Service) (rows : List Service)
    → service_exists id (rows ++ (svc ∷ [])) ≡ (service_exists id rows || svc.id == id)
exists-append id svc [] = ground arith
exists-append id svc (x ∷ rows) = ground (arith, exists-append id svc rows)

append-DifferentIds :
    (svc : Service) (last : ℕ) (rows : List Service)
    → svc.id ≡ suc last
    → All (λ row. row.id ≤ last) rows
    → DifferentIds rows
    → DifferentIds (rows ++ (svc ∷ []))
append-DifferentIds svc last [] e b d = (refl, tt)
append-DifferentIds svc last (x ∷ rows) e b d = (
  ground (arith, nat_beq_iff svc.id x.id, exists-append x.id svc rows, d.0, b.0, e),
  append-DifferentIds svc last rows e b.1 d.1,
)

-- No two services have the same name or the same id, and no id is above the last that was given out.
pub record IsValid (db : Database) : Type 0 where
  pub names : DifferentNames db.services
  pub ids : DifferentIds db.services
  pub given : All (λ row. row.id ≤ db.last_service_id) db.services

module _ (sqlite : Sqlite) where
  create_service-IsValid :
      (svc : Service) (db : Database) → IsValid db → IsValid (create_service sqlite svc db).1
  unfolding create_service
  create_service-IsValid svc db v = elim (Bool-cases (service_rejected svc db.services db)) [
    | inl p ↦ rw (p) v
    | inr p ↦ rw (p) record {
      names = append-DifferentNames _ db.services (ground (arith, p)) v.names;
      ids = append-DifferentIds _ db.last_service_id db.services refl v.given v.ids;
      given =
          All-append (λ row. row.id ≤ suc db.last_service_id) db.services _
            (All-map (λ row h. omega (arith, h)) db.services v.given) (omega arith, tt);
    }
  ]

  update_service-IsValid :
      (svc : Service) (db : Database) → IsValid db → IsValid (update_service sqlite svc db).1
  unfolding update_service update_service_fails
  update_service-IsValid svc db v = elim (Bool-cases (update_service_fails svc db)) [
    | inl p ↦ rw (p) v
    | inr p ↦ rw (p) record {
      names = updated p;
      ids = with_update-DifferentIds svc db.clock db.services v.ids;
      given =
          All-update_where {P = λ row. row.id ≤ db.last_service_id} _ _ (λ x q h. h) db.services
            v.given;
    }
  ]
    where
      updated :
          update_service_fails svc db ≡ false
          → DifferentNames (with_update svc db.clock db.services)
      updated p = elim (Bool-cases (service_exists svc.id db.services)) [
        | inl q ↦
            with_update-DifferentNames svc db.clock db.services (ground (arith, p, q)) v.ids v.names
        | inr q ↦ rw ((untouched svc db.clock db.services q).0) v.names
      ]

  delete_service-IsValid :
      (id : ℕ) (db : Database) → IsValid db → IsValid (delete_service sqlite id db).1
  unfolding delete_service
  delete_service-IsValid id db v = record {
    names = where_rows-DifferentNames _ db.services v.names;
    ids = where_rows-DifferentIds _ db.services v.ids;
    given =
        All-where_rows {P = λ row. row.id ≤ db.last_service_id}
          {Q = λ row. row.id ≤ db.last_service_id} _ (λ x q h. h) db.services v.given;
  }

  -- Creating, updating and deleting services keeps their names and ids different from one another,
  -- whether the statement succeeds or fails on a constraint.
  pub services_stay_different :
      (svc : Service) (id : ℕ) (db : Database)
      → IsValid db
      → IsValid (create_service sqlite svc db).1
        × IsValid (update_service sqlite svc db).1
        × IsValid (delete_service sqlite id db).1
  services_stay_different svc id db v = (
    create_service-IsValid svc db v,
    update_service-IsValid svc db v,
    delete_service-IsValid id db v,
  )
