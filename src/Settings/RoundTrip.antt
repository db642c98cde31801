-- ===== src/Settings/RoundTrip.antt =====
-- internal/settings/service.go: what `Load` shows after `Save`.
use project_talos.Prelude.{
  ℕ, String, ◌≡◌, refl, ◌∙◌, sym, ap, subst, true, Option, none, some, List, All, split-Lacks,
  Lacks, trim_space, trim_space_idem, dir, string_eq,
}
use project_talos.Domain.{Error, Result, ok, err}
use project_talos.Settings.EnvFile.{Dict, lookup, parse_env, update_env}
use project_talos.Settings.Apply.{InstallMode}
use project_talos.Settings.Service.{
  Reading, content, not_exist, failed, Files, Snapshot, UpdateInput, get, updates_of, lines_of,
  default_string, parse_proxy_mode, detect_install_mode, resolve_env_path, update_env_file,
  update_read, written, saved, snapshot, load_values, load_from, load, save,
}
use project_talos.Settings.Values.{
  once, setting_keys, IsOneLine, default_string_idem, updates_of-IsClean, get-updated,
}
use project_talos.Settings.EnvPath.{
  env_paths, is_one_of, FileLaws, Same, detect-Same, resolve-Same, resolved_is_env_path,
}

-- The file's keys, if there is a file
abbrev pub HasEachOnce : Reading → Type 0
HasEachOnce reading = All (λ key. once key (lines_of reading) ≡ true) setting_keys

module _ {W : Type 0} (files : Files W) (laws : FileLaws files) where
  open files use {inspect_talos, file_exists, read_file, mkdir_all, write_file}

  -- The file was written in the world `w`, and `w'` is the world after.
  abbrev Wrote : String → String → W → W → Type 0
  Wrote path text w w' = ((write_file path text w).0 ≡ none) × ((write_file path text w).1 ≡ w')

  written_lem :
      (path text : String) (made : Option Error) (w w' : W)
      → written files path text made w ≡ (none, w')
      → Wrote path text w w'
  unfolding written
  written_lem path text none w w' e = (ap (λ r. r.0) e, ap (λ r. r.1) e)
  written_lem path text (some x) w w' e = absurd (not_none (ap (λ r. r.0) e))
    where
      not_none : some x ≡ none → ⊥
      not_none h = cc

  abbrev made_dir : String → W → W
  made_dir path w = (mkdir_all (dir path) w).1

  update_read_lem :
      (path : String) (updates : Dict) (reading : Reading) (w w' : W)
      → update_read files path updates reading w ≡ (none, w')
      → Wrote path (update_env updates (lines_of reading)) (made_dir path w) w'
  unfolding update_read
  update_read_lem path updates (content text) w w' e = written_lem path _ _ _ w' e
  update_read_lem path updates not_exist w w' e = written_lem path _ _ _ w' e
  update_read_lem path updates (failed x) w w' e = absurd (not_none (ap (λ r. r.0) e))
    where
      not_none : some x ≡ none → ⊥
      not_none h = cc

  Wrote-Same :
      (path text : String) (w w' : W)
      → is_one_of env_paths path ≡ true
      → Wrote path text (made_dir path w) w'
      → Same files path w w' × (read_file path w' ≡ content text)
  Wrote-Same path text w w' i (n, e) =
      subst (λ v. Same files path w v × (read_file path v ≡ content text)) e
        (
          record {
            inspect = laws.write_inspect path text _ ∙ laws.mkdir_inspect (dir path) w;
            exists = laws.write_exists path text _ n;
            others = λ other c d.
                laws.write_others path text other _ d ∙ laws.mkdir_same path other w i c;
          },
          laws.write_reads path text _ n,
        )

  -- What `Load` makes of the file, and what `Save` makes of its updates
  snapshots_agree :
      (mode : InstallMode) (image path host : String) (port : ℕ) (w : W) (input : UpdateInput)
      (lines : List String)
      → Lacks 10 lines
      → All (λ key. once key lines ≡ true) setting_keys
      → IsOneLine input
      → load_from files mode image path host port w (content (update_env (updates_of input) lines))
        ≡ (saved files mode image path host port (updates_of input) none w).0
  unfolding load_from saved load_values updates_of lookup trim_space
  snapshots_agree mode image path host port w input lines l (d, (e, (m, (n, (r, (p, _)))))) c = λ i.
      ok (
        snapshot files mode image path host port w (domain i) (email i) (proxy_mode i) (network i)
          (resolver i) (entrypoint i))
    where
      updates : Dict
      updates = updates_of input

      new : Dict
      new = parse_env (update_env updates lines)

      read :
          (key value : String)
          → lookup key updates ≡ some value
          → once key lines ≡ true
          → get key new ≡ get key updates
      read key value u o = get-updated updates lines key value l (updates_of-IsClean input c) u o

      domain : trim_space (get "TALOS_DOMAIN" new) ≡ get "TALOS_DOMAIN" updates
      domain = ap trim_space (read "TALOS_DOMAIN" _ refl d) ∙ trim_space_idem input.domain

      email : trim_space (get "TALOS_ACME_EMAIL" new) ≡ get "TALOS_ACME_EMAIL" updates
      email = ap trim_space (read "TALOS_ACME_EMAIL" _ refl e) ∙ trim_space_idem input.acme_email

      proxy_mode :
          parse_proxy_mode (get "TALOS_PROXY_MODE" new)
          ≡ parse_proxy_mode (get "TALOS_PROXY_MODE" updates)
      proxy_mode = ap parse_proxy_mode (read "TALOS_PROXY_MODE" _ refl m)

      network :
          default_string (get "TALOS_EDGE_NETWORK" new) "traefik-public"
          ≡ get "TALOS_EDGE_NETWORK" updates
      network =
          ap (λ v. default_string v "traefik-public") (read "TALOS_EDGE_NETWORK" _ refl n)
          ∙ default_string_idem input.edge_network "traefik-public" refl refl

      resolver :
          default_string (get "TALOS_EDGE_CERT_RESOLVER" new) "letsencrypt"
          ≡ get "TALOS_EDGE_CERT_RESOLVER" updates
      resolver =
          ap (λ v. default_string v "letsencrypt") (read "TALOS_EDGE_CERT_RESOLVER" _ refl r)
          ∙ default_string_idem input.edge_cert_resolver "letsencrypt" refl refl

      entrypoint :
          default_string (get "TALOS_EDGE_ENTRYPOINT" new) "websecure"
          ≡ get "TALOS_EDGE_ENTRYPOINT" updates
      entrypoint =
          ap (λ v. default_string v "websecure") (read "TALOS_EDGE_ENTRYPOINT" _ refl p)
          ∙ default_string_idem input.edge_entrypoint "websecure" refl refl

  saved_lem :
      (mode : InstallMode) (image path host : String) (port : ℕ) (updates : Dict)
      (result : Option Error) (w w' : W) (shown : Snapshot)
      → saved files mode image path host port updates result w ≡ (ok shown, w')
      → (result ≡ none)
        × (w ≡ w')
        × ((saved files mode image path host port updates none w').0 ≡ ok shown)
  unfolding saved
  saved_lem mode image path host port updates none w w' shown e =
      let same : w ≡ w' = ap (λ r. r.1) e in
      (
        refl,
        same,
        ap (λ v. (saved files mode image path host port updates none v).0) (sym same)
            ∙ ap (λ r. r.0) e,
      )
  saved_lem mode image path host port updates (some x) w w' shown e =
      absurd (not_ok (ap (λ r. r.0) e))
    where
      not_ok : err x ≡ ok shown → ⊥
      not_ok h = cc

  lines_of-Lacks : (reading : Reading) → Lacks 10 (lines_of reading)
  lines_of-Lacks (content text) = split-Lacks 10 text
  lines_of-Lacks not_exist = tt
  lines_of-Lacks (failed e) = tt

  abbrev load_at : String → ℕ → W → InstallMode × String → Result Snapshot
  load_at host port w (mode, image) =
      load_from files mode image (resolve_env_path files "" mode w) host port w
        (read_file (resolve_env_path files "" mode w) w)

  -- The file that the service reads and writes in a world
  abbrev pub env_file : W → String
  env_file w = resolve_env_path files "" (detect_install_mode files w).0 w

  -- What a successful `Save` leaves: the file with the updates, and everything else as it was.
  module _ (input : UpdateInput) (host : String) (port : ℕ) (w w' : W) (shown : Snapshot) where
    mode : InstallMode
    mode = (detect_install_mode files w).0

    image : String
    image = (detect_install_mode files w).1

    is_env_path : is_one_of env_paths (env_file w) ≡ true
    unfolding mode
    is_env_path = resolved_is_env_path files mode w

    result : Option Error × W
    result = update_env_file files (env_file w) (updates_of input) w

    save_inverted :
        save files "" input host port w ≡ (ok shown, w')
        → (result.0 ≡ none)
          × (result.1 ≡ w')
          × ((saved files mode image (env_file w) host port (updates_of input) none w').0
              ≡ ok shown)
    unfolding save mode image result
    save_inverted e =
        saved_lem mode image (env_file w) host port (updates_of input) result.0 result.1 w' shown e

    save_writes :
        save files "" input host port w ≡ (ok shown, w')
        → Same files (env_file w) w w'
          × (read_file (env_file w) w'
              ≡ content (update_env (updates_of input) (lines_of (read_file (env_file w) w))))
    unfolding update_env_file result
    save_writes e = Wrote-Same (env_file w) _ w w' is_env_path (
        update_read_lem (env_file w) (updates_of input) (read_file (env_file w) w) w w'
          (λ i. ((save_inverted e).0 i, (save_inverted e).1 i)))

    -- The file that the service finds afterwards gives each setting the value that was saved.
    pub saved_values :
        IsOneLine input
        → HasEachOnce (read_file (env_file w) w)
        → save files "" input host port w ≡ (ok shown, w')
        → (text : String) × (read_file (env_file w') w' ≡ content text)
          × All (λ key. get key (parse_env text) ≡ get key (updates_of input)) setting_keys
    unfolding mode updates_of lookup
    saved_values c (d, (e, (m, (n, (r, (p, _)))))) h =
        let (same, written) = save_writes h in
        let lines = lines_of (read_file (env_file w) w) in
        let found : env_file w' ≡ env_file w =
          ap (λ m. resolve_env_path files "" m.0 w')
            (detect-Same files (env_file w) w w' is_env_path same)
          ∙ resolve-Same files mode (env_file w) w w' refl same in
        let read : (key value : String)
            → lookup key (updates_of input) ≡ some value
            → once key lines ≡ true
            → get key (parse_env (update_env (updates_of input) lines))
              ≡ get key (updates_of input) =
          λ key value u o.
            get-updated (updates_of input) lines key value
              (lines_of-Lacks (read_file (env_file w) w)) (updates_of-IsClean input c) u o in
        (
          update_env (updates_of input) lines,
          ap (λ q. read_file q w') found ∙ written,
          (
            read "TALOS_DOMAIN" _ refl d,
            (
              read "TALOS_ACME_EMAIL" _ refl e,
              (
                read "TALOS_PROXY_MODE" _ refl m,
                (
                  read "TALOS_EDGE_NETWORK" _ refl n,
                  (
                    read "TALOS_EDGE_CERT_RESOLVER" _ refl r,
                    (read "TALOS_EDGE_ENTRYPOINT" _ refl p, tt),
                  ),
                ),
              ),
            ),
          ),
        )

    -- When the texts are single lines, and at most one line of the file gives each setting a value, one
    -- that begins with its key, then `Load` after a successful `Save` returns the snapshot that `Save`
    -- returned: every setting, the path, the address and the text that says how to apply them.
    pub load_after_save :
        IsOneLine input
        → HasEachOnce (read_file (env_file w) w)
        → save files "" input host port w ≡ (ok shown, w')
        → load files "" host port w' ≡ ok shown
    unfolding load mode image
    load_after_save c o e =
        let (same, written) = save_writes e in
        let path = env_file w in
        ap (load_at host port w') (detect-Same files path w w' is_env_path same)
        ∙ ap (λ q. load_from files mode image q host port w' (read_file q w'))
            (resolve-Same files mode path w w' refl same)
        ∙ ap (load_from files mode image path host port w') written
        ∙ snapshots_agree mode image path host port w' input (lines_of (read_file path w))
            (lines_of-Lacks (read_file path w)) o c
        ∙ (save_inverted e).2
