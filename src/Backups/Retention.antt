-- ===== src/Backups/Retention.antt =====
-- internal/backup/manager.go on internal/store/backup_repo.go: what the retention removes.
use project_talos.Prelude.{
  ℕ, String, zero, suc, ◌≡◌, refl, sym, ap, ◌∙◌, ◌≤◌, Bool, true, false, not, none, List, [], ◌∷◌,
  All, any, where_rows, length, length-take-le, take, drop, leb, ◌==◌, nat_eq, Bool-cases, inl, inr,
  arith,
}
use project_talos.Domain.{Backup, ok}
use project_talos.Action.{pure, ◌>>=◌}
use project_talos.Store.{Database, Sqlite}
use project_talos.Store.Backups.{list_backups, delete_backup}
use project_talos.Store.Latest.{SortLaws, IsDescending}
use project_talos.Backups.{
  BackupEnvironment, delete_oldest, enforce_listed, enforce_retention_policy,
}

-- The environment's store is the table of the database that `view` sees; removing a file leaves it.
pub record OnTable {W : Type 0} (env : BackupEnvironment W) (sqlite : Sqlite) (view : W → Database)
    : Type 0 where
  pub lists : (w : W) → (env.list_backups w).0 ≡ (list_backups sqlite (view w)).0
  pub lists_same : (w : W) → view (env.list_backups w).1 ≡ view w
  pub deletes :
      (id : ℕ) (w : W) → view (env.delete_backup id w).1 ≡ (delete_backup sqlite id (view w)).1
  pub removes_same : (name : String) (w : W) → view (env.remove_file name w).1 ≡ view w

abbrev pub has_id : List Backup → ℕ → Bool
has_id removed id = any (λ b. b.id == id) removed

-- The rows whose id is not among those of `removed`
abbrev pub without : List Backup → List Backup → List Backup
without removed rows = where_rows (λ row. not (has_id removed row.id)) rows

without-nil : (rows : List Backup) → without [] rows ≡ rows
without-nil [] = refl
without-nil (x ∷ rows) = ap (λ l. x ∷ l) (without-nil rows)

swap : (m n : ℕ) (v : Bool) → (m == n) ≡ v → (n == m) ≡ v
swap m n v h = sym (same m n) ∙ h
  where
    same : (m n : ℕ) → (m == n) ≡ (n == m)
    same m n = ground arith

without-cons :
    (b : Backup) (rest rows : List Backup)
    → without rest (where_rows (λ row. not (row.id == b.id)) rows) ≡ without (b ∷ rest) rows
without-cons b rest [] = refl
without-cons b rest (x ∷ rows) = elim (Bool-cases (x.id == b.id)) [
  | inl p ↦ rw (p, swap x.id b.id true p) (without-cons b rest rows)
  | inr p ↦ elim (Bool-cases (has_id rest x.id)) [
    | inl q ↦ rw (p, swap x.id b.id false p, q) (without-cons b rest rows)
    | inr q ↦ rw (p, swap x.id b.id false p, q) (ap (λ l. x ∷ l) (without-cons b rest rows))
  ]
]

absent :
    (id : ℕ) (rows : List Backup)
    → any (λ b. b.id == id) rows ≡ false
    → where_rows (λ row. not (row.id == id)) rows ≡ rows
absent id [] h = refl
absent id (x ∷ rows) h = elim (Bool-cases (x.id == id)) [
  | inl p ↦ absurd (clash p)
  | inr p ↦ rw (p) (ap (λ l. x ∷ l) (absent id rows (rest p)))
]
  where
    clash : (x.id == id) ≡ true → ⊥
    clash p = ground (arith, p, h)

    rest : (x.id == id) ≡ false → any (λ b. b.id == id) rows ≡ false
    rest p = ground (arith, p, h)

-- The statement removes the rows of the id, also if there is none.
delete_backup-rows :
    (sqlite : Sqlite) (id : ℕ) (db : Database)
    → (delete_backup sqlite id db).1.backups ≡ where_rows (λ row. not (row.id == id)) db.backups
unfolding delete_backup
delete_backup-rows sqlite id db = elim (Bool-cases (any (λ b. b.id == id) db.backups)) [
  | inl p ↦ rw (p) refl
  | inr p ↦ rw (p) (sym (absent id db.backups p))
]

module _ {A : Type 0} where
  drop-nil : (n : ℕ) (xs : List A) → leb (length xs) n ≡ true → drop n xs ≡ []
  drop-nil zero [] h = refl
  drop-nil zero (x ∷ xs) h = ground (arith, h)
  drop-nil (suc n) [] h = refl
  drop-nil (suc n) (x ∷ xs) h = drop-nil n xs (ground (arith, h))

  All-drop : (P : A → Type 0) (n : ℕ) (xs : List A) → All P xs → All P (drop n xs)
  All-drop P zero xs h = h
  All-drop P (suc n) [] h = tt
  All-drop P (suc n) (x ∷ xs) h = All-drop P n xs h.1

  All-both : (P Q : A → Type 0) (xs : List A) → All P xs → All Q xs → All (λ x. P x × Q x) xs
  All-both P Q [] h k = tt
  All-both P Q (x ∷ xs) h k = ((h.0, k.0), All-both P Q xs h.1 k.1)

  All-Unit : (xs : List A) → All (λ _. Unit {0}) xs
  All-Unit [] = tt
  All-Unit (x ∷ xs) = (tt, All-Unit xs)

  -- In a list in descending order no element after the first `n` is above one of those.
  oldest_dropped :
      (key : A → ℕ) (n : ℕ) (xs : List A)
      → IsDescending key xs
      → All (λ old. All (λ kept. key old ≤ key kept) (take n xs)) (drop n xs)
  oldest_dropped key zero xs h = All-Unit xs
  oldest_dropped key (suc n) [] h = tt
  oldest_dropped key (suc n) (x ∷ xs) h =
      All-both (λ old. key old ≤ key x) (λ old. All (λ kept. key old ≤ key kept) (take n xs))
        (drop n xs) (All-drop _ n xs h.0) (oldest_dropped key n xs h.1)

module _ {W : Type 0} (env : BackupEnvironment W) (retain : ℕ) (sqlite : Sqlite)
    (view : W → Database) (table : OnTable env sqlite view) where
  delete_oldest-rows :
      (removed : List Backup) (w : W)
      → (view (delete_oldest env retain removed w).1).backups ≡ without removed (view w).backups
  unfolding delete_oldest pure ◌>>=◌
  delete_oldest-rows [] w = sym (without-nil (view w).backups)
  delete_oldest-rows (b ∷ rest) w =
      delete_oldest-rows rest (env.delete_backup b.id (env.remove_file b.filename w).1).1
      ∙ ap (without rest) (
          ap (λ db. db.backups) (table.deletes b.id (env.remove_file b.filename w).1)
          ∙ delete_backup-rows sqlite b.id (view (env.remove_file b.filename w).1)
          ∙ ap (λ db. where_rows (λ row. not (row.id == b.id)) db.backups)
              (table.removes_same b.filename w))
      ∙ without-cons b rest (view w).backups

  -- The order of the listing: newest first
  abbrev pub listed : Database → List Backup
  listed db = sqlite.descending (λ b. b.created_at) db.backups

  enforced-rows :
      (w w' : W)
      → view w' ≡ view w
      → ((enforce_listed env retain (ok (listed (view w))) w').0 ≡ none)
        × ((view (enforce_listed env retain (ok (listed (view w))) w').1).backups
            ≡ without (drop retain (listed (view w))) (view w).backups)
  unfolding enforce_listed pure ◌>>=◌
  enforced-rows w w' s = elim (Bool-cases (leb (length (listed (view w))) retain)) [
    | inl p ↦
        rw (p, drop-nil retain (listed (view w)) p)
          (refl, ap (λ db. db.backups) s ∙ sym (without-nil (view w).backups))
    | inr p ↦ rw (p) (
      refl,
      delete_oldest-rows (drop retain (listed (view w))) w'
          ∙ ap (λ db. without (drop retain (listed (view w))) db.backups) s,
    )
  ]

  -- The retention leaves in the table the rows that are not listed after the first `retain`, and
  -- those that are listed there are not newer than any that stay at the head of the listing, which
  -- are at most `retain`. It reports no error, whatever the removals of the files answer.
  pub retention_removes_oldest :
      SortLaws sqlite
      → (w : W)
      → ((enforce_retention_policy env retain w).0 ≡ none)
        × ((view (enforce_retention_policy env retain w).1).backups
            ≡ without (drop retain (listed (view w))) (view w).backups)
        × All
            (λ old. All (λ kept. old.created_at ≤ kept.created_at) (take retain (listed (view w))))
            (drop retain (listed (view w)))
        × (length (take retain (listed (view w))) ≤ retain)
  unfolding enforce_retention_policy list_backups ◌>>=◌
  retention_removes_oldest laws w =
      let (none_left, rows) = enforced-rows w (env.list_backups w).1 (table.lists_same w) in
      (
        ap (λ r. (enforce_listed env retain r (env.list_backups w).1).0) (table.lists w)
            ∙ none_left,
        ap (λ r. (view (enforce_listed env retain r (env.list_backups w).1).1).backups)
              (table.lists w)
            ∙ rows,
        oldest_dropped (λ b. b.created_at) retain (listed (view w))
            (laws.is_descending _ (view w).backups),
        length-take-le retain (listed (view w)),
      )
