-- ===== src/Builder/Cleanup.antt =====
-- internal/builder/builder.go: what becomes of the folder of a clone.
use project_talos.Prelude.{
  ℕ, String, Bool, false, Option, none, some, ◌≡◌, ◌⊎◌, inl, inr, refl, ◌==◌, string_eq, ◌∙◌,
}
use project_talos.Domain.{App, Error, Result, ok, err}
use project_talos.Action.{Action, pure, ◌>>=◌}
use project_talos.Action.Triples.{Triple, Triple-pure, Triple-if, after}
use project_talos.Detect.Node.{PackageJson}
use project_talos.Builder.Naming.{clone_dir}
use project_talos.Builder.{
  Machine, told, removing, in_clone_dir, with_token, for_installation,
  clone_and_build_with_progress,
}

module _ {W : Type 0} (machine : Machine W) where
  open machine use {get_installation_token, mkdir_all, remove_all, progress}

  -- What the builder relies on: `os.RemoveAll` removes a folder unless it returns an error, a failed
  -- `os.MkdirAll` has not made it, and neither GitHub nor the progress function makes it.
  pub record Folders (is_there : String → W → Bool) : Type 0 where
    pub removed :
        (dir : String) (w : W)
        → (remove_all dir w).0 ≡ none
        → is_there dir (remove_all dir w).1 ≡ false
    pub not_made :
        (dir : String) (e : Error) (w : W)
        → (mkdir_all dir w).0 ≡ some e
        → is_there dir w ≡ false
        → is_there dir (mkdir_all dir w).1 ≡ false
    pub token_keeps :
        (dir : String) (i : ℕ) (w : W)
        → is_there dir (get_installation_token i w).1 ≡ is_there dir w
    pub progress_keeps :
        (dir level step text : String) (w : W)
        → is_there dir (progress level step text w).1 ≡ is_there dir w

module _ {W : Type 0} (machine : Machine W) (unmarshal : String → Result PackageJson)
    {is_there : String → W → Bool} (folders : Folders machine is_there) where
  open machine use {get_installation_token, mkdir_all, remove_all, progress}

  -- The folder is not there, or its removal was the last thing that was done, and returned an error.
  abbrev pub IsCleaned : String → W → Type 0
  IsCleaned dir w =
      (is_there dir w ≡ false)
      ⊎ ((v : W) × (e : Error) × ((remove_all dir v).0 ≡ some e) × (w ≡ (remove_all dir v).1))

  removing-IsCleaned : (dir : String) (v : W) → IsCleaned dir (remove_all dir v).1
  removing-IsCleaned dir v = by_answer (remove_all dir v).0 refl
    where
      by_answer : (r : Option Error) → (remove_all dir v).0 ≡ r → IsCleaned dir (remove_all dir v).1
      by_answer none q = inl (folders.removed dir v q)
      by_answer (some e) q = inr (v, e, q, refl)

  Leaves : {A : Type 0} → String → Action W A → Type 0
  Leaves dir m = Triple (λ w. is_there dir w ≡ false) m (λ _ w. IsCleaned dir w)

  told-Leaves :
      {A : Type 0} (dir step text : String) (rest : Action W A)
      → Leaves dir rest
      → Leaves dir (told machine step text rest)
  unfolding told Leaves
  told-Leaves dir step text rest h =
      after (progress "info" step text) (λ _. rest)
        (record { at = λ w out. folders.progress_keeps dir "info" step text w ∙ out }) (λ _. h)

  -- The folder was made, or was not: the error of `os.MkdirAll` says which.
  in_clone_dir-Leaves :
      (app : App) (commit_sha token dir : String) (w : W)
      → is_there dir w ≡ false
      → (e : Option Error) → (mkdir_all dir w).0 ≡ e
      → IsCleaned dir
          (in_clone_dir machine unmarshal app commit_sha token dir e (mkdir_all dir w).1).1
  unfolding in_clone_dir pure removing
  in_clone_dir-Leaves app commit_sha token dir w out none made = removing-IsCleaned dir _
  in_clone_dir-Leaves app commit_sha token dir w out (some e) failed =
      inl (folders.not_made dir e w failed out)

  with_token-Leaves :
      (app : App) (commit_sha dir : String) (token : Result String)
      → Leaves dir (with_token machine unmarshal app commit_sha dir token)
  unfolding with_token Leaves
  with_token-Leaves app commit_sha dir (err e) = Triple-pure _ (λ w out. inl out)
  with_token-Leaves app commit_sha dir (ok token) =
      told-Leaves dir "build_auth" "GitHub installation token ready" _ (record { at = made })
    where
      made :
          (w : W)
          → is_there dir w ≡ false
          → IsCleaned dir
              ((mkdir_all dir >>= in_clone_dir machine unmarshal app commit_sha token dir) w).1
      made w out =
          unfold ◌>>=◌ in
          in_clone_dir-Leaves app commit_sha token dir w out (mkdir_all dir w).0 refl

  for_installation-Leaves :
      (app : App) (commit_sha dir : String) (installation : Option ℕ)
      → Leaves dir (for_installation machine unmarshal app commit_sha dir installation)
  unfolding for_installation Leaves
  for_installation-Leaves app commit_sha dir none = Triple-pure _ (λ w out. inl out)
  for_installation-Leaves app commit_sha dir (some installation) =
      Triple-if (commit_sha == "") _ _ (Triple-pure _ (λ w out. inl out)) (
        told-Leaves dir "build_auth" "requesting GitHub installation token" _ (
          after (get_installation_token installation) _
            (record { at = λ w out. folders.token_keeps dir installation w ∙ out })
            (λ token. with_token-Leaves app commit_sha dir token)))

  -- If the folder of the clone is not there before a build, then after it, whatever fails, it is not
  -- there, or the last thing that was done is its removal by `os.RemoveAll`, which returned an error.
  pub clone_dir_removed :
      (data_dir commit_sha : String) (app : App) (w : W)
      → is_there (clone_dir data_dir app commit_sha) w ≡ false
      → IsCleaned
          (clone_dir data_dir app commit_sha)
          (clone_and_build_with_progress machine unmarshal data_dir app commit_sha w).1
  unfolding clone_and_build_with_progress Leaves
  clone_dir_removed data_dir commit_sha app w out =
      (for_installation-Leaves app commit_sha (clone_dir data_dir app commit_sha)
          app.github_installation_id).at
        w out
