-- ===== src/Examples/Laws.antt =====
-- The order of rows and the Docker host keep the laws that the theorems ask for.
use project_talos.Prelude.{
  ℕ, String, ◌≡◌, refl, subst, ◌≤◌, ◌≢◌, false, not, Option, List, [], ◌∷◌, All, All-map,
  where_rows, leb, Bool-cases, inl, inr, ◌==◌, string_eq, eq_iff, if◌then◌else◌, arith,
}
use project_talos.Domain.{Error}
use project_talos.Store.Latest.{SortLaws, IsDescending}
use project_talos.Engine.Containers.{ContainerLaws}
use project_talos.Examples.Values.{insert, sort, sqlite, docker_host, is_running}

module _ {A : Type 0} (key : A → ℕ) where
  insert-All : (P : A → Type 0) (x : A) (xs : List A) → P x → All P xs → All P (insert key x xs)
  insert-All P x [] p h = (p, tt)
  insert-All P x (y ∷ ys) p h = elim (Bool-cases (leb (key y) (key x))) [
    | inl q ↦ rw (q) (p, h)
    | inr q ↦ rw (q) (h.0, insert-All P x ys p h.1)
  ]

  All-insert : (P : A → Type 0) (x : A) (xs : List A) → All P (insert key x xs) → P x × All P xs
  All-insert P x [] h = h
  All-insert P x (y ∷ ys) h = elim (Bool-cases (leb (key y) (key x))) [
    | inl q ↦ subst (λ b. All P (if b then x ∷ y ∷ ys else y ∷ insert key x ys)) q h
    | inr q ↦
        let h' : P y × All P (insert key x ys) =
          subst (λ b. All P (if b then x ∷ y ∷ ys else y ∷ insert key x ys)) q h in
        let k = All-insert P x ys h'.1 in (k.0, (h'.0, k.1))
  ]

  insert-IsDescending :
      (x : A) (xs : List A) → IsDescending key xs → IsDescending key (insert key x xs)
  insert-IsDescending x [] h = (tt, tt)
  insert-IsDescending x (y ∷ ys) h = elim (Bool-cases (leb (key y) (key x))) [
    | inl q ↦ rw (q) ((ground (arith, q), All-map (λ z k. ground (arith, k, q)) ys h.0), h)
    | inr q ↦
        rw (q) (
          insert-All (λ z. key z ≤ key y) x ys (ground (arith, q)) h.0,
          insert-IsDescending x ys h.1,
        )
  ]

  sort-All : (P : A → Type 0) (xs : List A) → All P xs → All P (sort key xs)
  sort-All P [] h = tt
  sort-All P (x ∷ xs) h = insert-All P x (sort key xs) h.0 (sort-All P xs h.1)

  All-sort : (P : A → Type 0) (xs : List A) → All P (sort key xs) → All P xs
  All-sort P [] h = tt
  All-sort P (x ∷ xs) h = let k = All-insert P x (sort key xs) h in (k.0, All-sort P xs k.1)

  sort-IsDescending : (xs : List A) → IsDescending key (sort key xs)
  sort-IsDescending [] = tt
  sort-IsDescending (x ∷ xs) = insert-IsDescending x (sort key xs) (sort-IsDescending xs)

pub sqlite-SortLaws : SortLaws sqlite
sqlite-SortLaws = record {
  same_rows = λ key P xs h. sort-All key P xs h;
  all_rows = λ key P xs h. All-sort key P xs h;
  is_descending = λ key xs. sort-IsDescending key xs;
}

stop_others :
    (c name : String) (w : List String)
    → c ≢ name
    → is_running (where_rows (λ x. not (x == c)) w) name ≡ is_running w name
stop_others c name [] h = refl
stop_others c name (x ∷ w) h = ground (arith, eq_iff x c, eq_iff x name, stop_others c name w h, h)

stopped : (c : String) (w : List String) → is_running (where_rows (λ x. not (x == c)) w) c ≡ false
stopped c [] = refl
stopped c (x ∷ w) = ground (arith, stopped c w)

start_others :
    (c name : String) (w : List String) → c ≢ name → is_running (c ∷ w) name ≡ is_running w name
start_others c name w h = ground (arith, eq_iff c name, h)

pub docker_host-ContainerLaws :
    (health : Option Error) → ContainerLaws (docker_host health) is_running
docker_host-ContainerLaws health = record {
  now_same = λ w name. refl;
  update_deploy_same = λ d w name. refl;
  update_app_same = λ a w name. refl;
  create_deploy_event_same = λ e w name. refl;
  publish_same = λ e w name. refl;
  list_app_services_same = λ i w name. refl;
  get_service_same = λ i w name. refl;
  get_app_env_vars_same = λ i w name. refl;
  get_app_env_vars_snapshot_same = λ i w name. refl;
  pull_image_same = λ ref w name. refl;
  wait_for_health_same = λ i n w name. refl;
  update_route_same = λ a c w name. refl;
  stop_others_same = λ c w name h. stop_others c name w h;
  start_others_same = λ cfg w name h. start_others cfg.name name w h;
  stopped = λ c w h. stopped c w;
}
