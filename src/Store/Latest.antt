-- ===== src/Store/Latest.antt =====
-- internal/store/deploy_repo.go: `GetLatestDeploy`, `GetLatestSuccessfulDeploy` and `ListDeploys`.
use project_talos.Prelude.{
  ℕ, ◌≡◌, refl, ◌≤◌, ◌&&◌, Bool-cases, inl, inr, Bool, true, false, List, [], ◌∷◌, All, All-map,
  where_rows, head?, ◌⊎◌, ◌==◌, nat_eq, arith,
}
use project_talos.Domain.{Deploy, not_found, Result, ok, err}
use project_talos.Store.{Database, Sqlite, first_row}
use project_talos.Store.Deploys.{is_success, get_latest_deploy, get_latest_successful_deploy}
use project_talos.Store.Rows.{All-where_rows, All-of-where_rows}

-- No later row has a greater key.
abbrev pub IsDescending : {A : Type 0} → (A → ℕ) → List A → Type 0
IsDescending key [] = Unit
IsDescending key (x ∷ xs) = All (λ y. key y ≤ key x) xs × IsDescending key xs

-- What `ORDER BY key DESC` promises: the same rows, in descending order of the key.
pub record SortLaws (sqlite : Sqlite) : Type 1 where
  pub same_rows :
      {A : Type 0} (key : A → ℕ) (P : A → Type 0) (xs : List A)
      → All P xs
      → All P (sqlite.descending key xs)
  pub all_rows :
      {A : Type 0} (key : A → ℕ) (P : A → Type 0) (xs : List A)
      → All P (sqlite.descending key xs)
      → All P xs
  pub is_descending :
      {A : Type 0} (key : A → ℕ) (xs : List A) → IsDescending key (sqlite.descending key xs)

abbrev pub IsRow : Deploy → List Deploy → Type 0
IsRow d [] = ⊥
IsRow d (x ∷ xs) = (d ≡ x) ⊎ IsRow d xs

-- An answer with a row that the test selects, the newest of them; or no row is selected.
abbrev pub IsNewest : (Deploy → Bool) → List Deploy → Result Deploy → Type 0
IsNewest wanted rows (ok d) =
    IsRow d rows × (wanted d ≡ true) × All (λ y. wanted y ≡ true → y.created_at ≤ d.created_at) rows
IsNewest wanted rows (err e) = (e ≡ not_found) × All (λ y. wanted y ≡ false) rows

All-IsRow : (rows : List Deploy) → All (λ d. IsRow d rows) rows
All-IsRow [] = tt
All-IsRow (x ∷ rows) = (inl refl, All-map (λ d m. inr m) rows (All-IsRow rows))

IsNewest-of :
    (wanted : Deploy → Bool) (rows ys : List Deploy)
    → All (λ d. IsRow d rows × (wanted d ≡ true)) ys
    → IsDescending (λ d. d.created_at) ys
    → ((P : Deploy → Type 0) → All P ys → All P (where_rows wanted rows))
    → IsNewest wanted rows (first_row (head? ys))
IsNewest-of wanted rows [] m s back = (
  refl,
  All-map (λ y h. elim (Bool-cases (wanted y)) [ inl p ↦ absurd (h p) | inr p ↦ p ]) rows
      (All-of-where_rows (λ _. ⊥) wanted rows (back (λ _. ⊥) tt)),
)
IsNewest-of wanted rows (d ∷ ds) m s back = (
  m.0.0,
  m.0.1,
  All-of-where_rows (λ y. y.created_at ≤ d.created_at) wanted rows
      (back (λ y. y.created_at ≤ d.created_at) (omega arith, s.0)),
)

module _ (sqlite : Sqlite) (laws : SortLaws sqlite) where
  newest :
      (wanted : Deploy → Bool) (rows : List Deploy)
      → IsNewest wanted rows
          (first_row (head? (sqlite.descending (λ d. d.created_at) (where_rows wanted rows))))
  newest wanted rows =
      IsNewest-of wanted rows _
        (laws.same_rows _ _ _ (
          All-where_rows {P = λ d. IsRow d rows} {Q = λ d. IsRow d rows × (wanted d ≡ true)} wanted
            (λ d p m. (m, p)) rows (All-IsRow rows)))
        (laws.is_descending _ _) (λ P h. laws.all_rows _ P _ h)

  -- The latest deploy of an app is one of its deploys, and none of them was created later; the latest
  -- successful one is so among the app's successful deploys. The answer is `not_found` only if there
  -- is no such deploy.
  pub latest-IsNewest :
      (app_id : ℕ) (db : Database)
      → IsNewest (λ d. d.app_id == app_id) db.deploys (get_latest_deploy sqlite app_id db).0
        × IsNewest
            (λ d. d.app_id == app_id && is_success d.status)
            db.deploys
            (get_latest_successful_deploy sqlite app_id db).0
  unfolding get_latest_deploy get_latest_successful_deploy
  latest-IsNewest app_id db = (newest _ db.deploys, newest _ db.deploys)
