-- ===== src/Settings/EnvPath.antt =====
-- internal/settings/service.go: the path of the env file is found again after `Save`.
use project_talos.Prelude.{
  String, ◌≡◌, refl, ◌∙◌, sym, ap, subst, Bool, true, false, Option, none, some, List, [], ◌∷◌, any,
  dir, ◌==◌, string_eq, eq_iff, Bool-cases, inl, inr,
}
use project_talos.Settings.Apply.{InstallMode}
use project_talos.Settings.Service.{
  content, Files, docker_env_path, legacy_env_path, is_unknown, detect_install_mode, mode_of,
  resolve_env_path, mode_without_docker,
}

abbrev pub env_paths : List String
env_paths = docker_env_path ∷ legacy_env_path ∷ ".env" ∷ []

-- The files whose presence the service looks at
abbrev pub checked_paths : List String
checked_paths = "/etc/systemd/system/talos.service" ∷ "/usr/local/bin/talos" ∷ env_paths

abbrev pub is_one_of : List String → String → Bool
is_one_of paths path = any (λ p. p == path) paths

-- A directory that is made is none of the files that the service looks at, a file that was written
-- without an error is there with its new content, and other files and the container stay.
pub record FileLaws {W : Type 0} (files : Files W) : Type 0 where
  pub mkdir_same :
      (path other : String) (w : W)
      → is_one_of env_paths path ≡ true
      → is_one_of checked_paths other ≡ true
      → files.file_exists other (files.mkdir_all (dir path) w).1 ≡ files.file_exists other w
  pub mkdir_inspect :
      (path : String) (w : W)
      → files.inspect_talos (files.mkdir_all path w).1 ≡ files.inspect_talos w
  pub write_inspect :
      (path text : String) (w : W)
      → files.inspect_talos (files.write_file path text w).1 ≡ files.inspect_talos w
  pub write_others :
      (path text other : String) (w : W)
      → (path == other) ≡ false
      → files.file_exists other (files.write_file path text w).1 ≡ files.file_exists other w
  pub write_exists :
      (path text : String) (w : W)
      → (files.write_file path text w).0 ≡ none
      → files.file_exists path (files.write_file path text w).1 ≡ true
  pub write_reads :
      (path text : String) (w : W)
      → (files.write_file path text w).0 ≡ none
      → files.read_file path (files.write_file path text w).1 ≡ content text

module _ {W : Type 0} (files : Files W) where
  open files use {inspect_talos, file_exists}

  -- The worlds look the same to the service, but for the file at `path`, which is there afterwards.
  pub record Same (path : String) (w w' : W) : Type 0 where
    pub inspect : inspect_talos w' ≡ inspect_talos w
    pub exists : file_exists path w' ≡ true
    pub others :
        (other : String)
        → is_one_of checked_paths other ≡ true
        → (path == other) ≡ false
        → file_exists other w' ≡ file_exists other w

  not_env_path :
      (path other : String)
      → is_one_of env_paths path ≡ true
      → is_one_of env_paths other ≡ false
      → (path == other) ≡ false
  not_env_path path other i n = elim (Bool-cases (path == other)) [
    | inl p ↦ absurd (clash (sym i ∙ ap (is_one_of env_paths) ((eq_iff path other).0 p) ∙ n))
    | inr p ↦ p
  ]
    where
      clash : true ≡ false → ⊥
      clash h = cc

  pub detect-Same :
      (path : String) (w w' : W)
      → is_one_of env_paths path ≡ true
      → Same path w w'
      → detect_install_mode files w' ≡ detect_install_mode files w
  unfolding detect_install_mode mode_of mode_without_docker
  detect-Same path w w' i s = ap (mode_of files w') s.inspect ∙ same_of (inspect_talos w)
    where
      same_mode : mode_without_docker files w' ≡ mode_without_docker files w
      same_mode =
          rw (s.others "/etc/systemd/system/talos.service" refl (not_env_path path _ i refl))
            (rw (s.others "/usr/local/bin/talos" refl (not_env_path path _ i refl)) refl)

      same_of : (o : Option (Option String)) → mode_of files w' o ≡ mode_of files w o
      same_of (some image) = refl
      same_of none = ap (λ mode. (mode, "")) same_mode

  -- The path is found again.
  pub resolve-Same :
      (mode : InstallMode) (path : String) (w w' : W)
      → resolve_env_path files "" mode w ≡ path
      → Same path w w'
      → resolve_env_path files "" mode w' ≡ path
  unfolding resolve_env_path
  resolve-Same mode path w w' e s = elim (Bool-cases (file_exists docker_env_path w)) [
    | inl p ↦ at_docker (sym e ∙ rw (p) refl)
    | inr p ↦ elim (Bool-cases (is_unknown mode)) [
      | inr k ↦ at_docker (sym e ∙ rw (p) (rw (k) refl))
      | inl k ↦ elim (Bool-cases (file_exists legacy_env_path w)) [
        | inl l ↦
            let i : path ≡ legacy_env_path = sym e ∙ rw (p) (rw (k) (rw (l) refl)) in
            rw (same docker_env_path refl i refl ∙ p)
              (rw (k) (rw (there legacy_env_path i) (sym i)))
        | inr l ↦ elim (Bool-cases (file_exists ".env" w)) [
          | inl v ↦
              let i : path ≡ ".env" = sym e ∙ rw (p) (rw (k) (rw (l) (rw (v) refl))) in
              rw (same docker_env_path refl i refl ∙ p)
                (rw (k) (rw (same legacy_env_path refl i refl ∙ l) (rw (there ".env" i) (sym i))))
          | inr v ↦ at_docker (sym e ∙ rw (p) (rw (k) (rw (l) (rw (v) refl))))
        ]
      ]
    ]
  ]
    where
      there : (q : String) → path ≡ q → file_exists q w' ≡ true
      there q i = subst (λ r. file_exists r w' ≡ true) i s.exists

      same :
          (q : String) {r : String}
          → is_one_of checked_paths q ≡ true
          → path ≡ r
          → (r == q) ≡ false
          → file_exists q w' ≡ file_exists q w
      same q {r} c i d = s.others q c (ap (λ x. x == q) i ∙ d)

      at_docker : path ≡ docker_env_path → resolve_env_path files "" mode w' ≡ path
      at_docker i = rw (there docker_env_path i) (sym i)

  pub resolved_is_env_path :
      (mode : InstallMode) (w : W) → is_one_of env_paths (resolve_env_path files "" mode w) ≡ true
  unfolding resolve_env_path
  resolved_is_env_path mode w = elim (Bool-cases (file_exists docker_env_path w)) [
    | inl p ↦ rw (p) refl
    | inr p ↦ elim (Bool-cases (is_unknown mode)) [
      | inr k ↦ rw (p) (rw (k) refl)
      | inl k ↦ elim (Bool-cases (file_exists legacy_env_path w)) [
        | inl l ↦ rw (p) (rw (k) (rw (l) refl))
        | inr l ↦ elim (Bool-cases (file_exists ".env" w)) [
          | inl v ↦ rw (p) (rw (k) (rw (l) (rw (v) refl)))
          | inr v ↦ rw (p) (rw (k) (rw (l) (rw (v) refl)))
        ]
      ]
    ]
  ]
