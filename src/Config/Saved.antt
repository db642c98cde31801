-- ===== src/Config/Saved.antt =====
-- internal/config/config.go and internal/settings: a process that is started with a saved env file.
use project_talos.Prelude.{
  String, Option, none, some, false, ◌≡◌, refl, ap, subst, eq_iff, ℕ, sym, ◌∙◌, arith, ◌==◌,
  string_eq, trim_space, All,
}
use project_talos.Proxy.{ProxyMode, internal, external}
use project_talos.Domain.{Error, Result, ok, err}
use project_talos.Settings.Apply.{InstallMode}
use project_talos.Settings.Service.{
  Files, Snapshot, content, snapshot, saved, save, proxy_mode_text, UpdateInput, updates_of, get,
  default_string, parse_proxy_mode,
}
use project_talos.Settings.EnvFile.{Dict, lookup, parse_env}
use project_talos.Settings.Values.{setting_keys, IsOneLine}
use project_talos.Settings.EnvPath.{FileLaws}
use project_talos.Settings.RoundTrip.{HasEachOnce, env_file, saved_values}
use project_talos.Config.{ServerConfig, server_config, env_or_default, proxy_mode_default}

default_string-full :
    (v fallback : String) → (fallback == "") ≡ false → (default_string v fallback == "") ≡ false
unfolding default_string
default_string-full v fallback h = ground arith

env_or_default-some :
    (getenv : String → String) (key value fallback : String)
    → getenv key ≡ value
    → (value == "") ≡ false
    → env_or_default getenv key fallback ≡ value
unfolding env_or_default
env_or_default-some getenv key value fallback e h = rw (e, h) refl

-- The environment of a process that is started with a file's values: they stand before the others.
abbrev pub environment : Dict → (String → String) → String → String
environment values others key = elim (lookup key values) [ none ↦ others key | some value ↦ value ]

env_or_default-empty :
    (getenv : String → String) (key : String) → env_or_default getenv key "" ≡ getenv key
unfolding env_or_default
env_or_default-empty getenv key = ground (arith, eq_iff (getenv key) "")

proxy_mode_default-text :
    (getenv : String → String) (key : String) (mode : ProxyMode)
    → getenv key ≡ proxy_mode_text mode
    → proxy_mode_default getenv key internal ≡ mode
unfolding proxy_mode_default
proxy_mode_default-text getenv key internal e = rw e refl
proxy_mode_default-text getenv key external e = rw e refl

parse_proxy_mode-text : (mode : ProxyMode) → parse_proxy_mode (proxy_mode_text mode) ≡ mode
unfolding parse_proxy_mode trim_space
parse_proxy_mode-text internal = refl
parse_proxy_mode-text external = refl

-- A configuration has the settings of a snapshot.
abbrev pub HasSettings : ServerConfig → Snapshot → Type 0
HasSettings c shown =
    (c.domain ≡ shown.domain)
    × (c.acme_email ≡ shown.acme_email)
    × (c.proxy_mode ≡ shown.proxy_mode)
    × (c.edge_network ≡ shown.edge_network)
    × (c.edge_cert_resolver ≡ shown.edge_cert_resolver)
    × (c.edge_entrypoint ≡ shown.edge_entrypoint)

abbrev OnSnapshot : (Snapshot → Type 0) → Result Snapshot → Type 0
OnSnapshot P (ok shown) = P shown
OnSnapshot P (err e) = Unit

-- Where the other variables have no value for a key, the environment has what the file reads.
environment-get :
    (values : Dict) (others : String → String) (key : String)
    → others key ≡ ""
    → environment values others key ≡ get key values
environment-get values others key h = by_lookup (lookup key values)
  where
    by_lookup :
        (r : Option String)
        → (elim r [ none ↦ others key | some value ↦ value ])
          ≡ (elim r [ none ↦ "" | some value ↦ value ])
    by_lookup none = h
    by_lookup (some value) = refl

module _ (input : UpdateInput) (getenv : String → String)
    (reads : All (λ key. getenv key ≡ get key (updates_of input)) setting_keys) where
  started_text :
      (key v fallback : String)
      → getenv key ≡ default_string v fallback
      → (fallback == "") ≡ false
      → env_or_default getenv key fallback ≡ default_string v fallback
  started_text key v fallback e full =
      env_or_default-some getenv key (default_string v fallback) fallback e
        (default_string-full v fallback full)

  module _ {W : Type 0} (files : Files W) (mode : InstallMode) (image env_path host : String)
      (port : ℕ) where
    saved_settings :
        (w : W)
        → HasSettings (server_config getenv) (
            snapshot files mode image env_path host port w
              (get "TALOS_DOMAIN" (updates_of input))
              (get "TALOS_ACME_EMAIL" (updates_of input))
              (parse_proxy_mode (get "TALOS_PROXY_MODE" (updates_of input)))
              (get "TALOS_EDGE_NETWORK" (updates_of input))
              (get "TALOS_EDGE_CERT_RESOLVER" (updates_of input))
              (get "TALOS_EDGE_ENTRYPOINT" (updates_of input)))
    unfolding server_config updates_of lookup snapshot
    saved_settings w =
        let (d, (e, (m, (n, (r, (p, _)))))) = reads in
        (
          env_or_default-empty getenv "TALOS_DOMAIN" ∙ d,
          env_or_default-empty getenv "TALOS_ACME_EMAIL" ∙ e,
          proxy_mode_default-text getenv "TALOS_PROXY_MODE" (parse_proxy_mode input.proxy_mode) m
              ∙ sym (parse_proxy_mode-text (parse_proxy_mode input.proxy_mode)),
          started_text "TALOS_EDGE_NETWORK" input.edge_network "traefik-public" n refl,
          started_text "TALOS_EDGE_CERT_RESOLVER" input.edge_cert_resolver "letsencrypt" r refl,
          started_text "TALOS_EDGE_ENTRYPOINT" input.edge_entrypoint "websecure" p refl,
        )

    saved-HasSettings :
        (e : Option Error) (w w' : W) (shown : Snapshot)
        → saved files mode image env_path host port (updates_of input) e w ≡ (ok shown, w')
        → HasSettings (server_config getenv) shown
    unfolding saved
    saved-HasSettings none w w' shown h =
        let first : (r : Result Snapshot × W) → Result Snapshot = λ r. r.0 in
        let e = ap first h in
        subst (OnSnapshot (HasSettings (server_config getenv))) e (saved_settings w)
    saved-HasSettings (some e) w w' shown h =
        let first : (r : Result Snapshot × W) → Result Snapshot = λ r. r.0 in
        let bad : err e ≡ ok shown = ap first h in absurd (cc)

-- When the texts are single lines, and at most one line of the file gives each setting a value, one
-- that begins with its key, then after a successful `Save` the env file that the service finds is
-- there, and a process that is started with the values which the service reads in it, and with no
-- other value for a setting, has the settings of the snapshot that `Save` returned.
pub load_config-saved :
    {W : Type 0} (files : Files W) (laws : FileLaws files) (input : UpdateInput) (host : String)
    (port : ℕ) (w w' : W) (shown : Snapshot) (others : String → String)
    → IsOneLine input
    → HasEachOnce (files.read_file (env_file files laws w) w)
    → save files "" input host port w ≡ (ok shown, w')
    → All (λ key. others key ≡ "") setting_keys
    → (text : String) × (files.read_file (env_file files laws w') w' ≡ content text)
      × HasSettings (server_config (environment (parse_env text) others)) shown
unfolding save
load_config-saved files laws input host port w w' shown others c o h unset =
    let (text, found, (d, (e, (m, (n, (r, (p, _))))))) =
      saved_values files laws input host port w w' shown c o h in
    let (d', (e', (m', (n', (r', (p', _)))))) = unset in
    let getenv = environment (parse_env text) others in
    let reads : All (λ key. getenv key ≡ get key (updates_of input)) setting_keys = (
      environment-get (parse_env text) others "TALOS_DOMAIN" d' ∙ d,
      (
        environment-get (parse_env text) others "TALOS_ACME_EMAIL" e' ∙ e,
        (
          environment-get (parse_env text) others "TALOS_PROXY_MODE" m' ∙ m,
          (
            environment-get (parse_env text) others "TALOS_EDGE_NETWORK" n' ∙ n,
            (
              environment-get (parse_env text) others "TALOS_EDGE_CERT_RESOLVER" r' ∙ r,
              (environment-get (parse_env text) others "TALOS_EDGE_ENTRYPOINT" p' ∙ p, tt),
            ),
          ),
        ),
      ),
    ) in
    (text, found, saved-HasSettings input getenv reads files _ _ _ host port _ _ w' shown h)
