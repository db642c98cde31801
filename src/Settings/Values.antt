-- ===== src/Settings/Values.antt =====
-- internal/settings/service.go: the values that `Save` writes read back as they were written.
use project_talos.Prelude.{
  String, ◌≡◌, refl, ◌∙◌, sym, ap, subst, Bool, true, false, not, ◌&&◌, Option, none, some, List,
  [], ◌∷◌, Lacks, has_char, trim_space, trim_space_idem, trim_right, trim_right-trim_space,
  is_space, ◌==◌, string_eq, eq_iff, if◌then◌else◌, Bool-cases, inl, inr,
}
use project_talos.Proxy.{ProxyMode}
use project_talos.Settings.EnvFile.{Dict, lookup, parse_env, update_env}
use project_talos.Settings.Reading.{or_else, assigned, value_of, is_key}
use project_talos.Settings.Appending.{IsCleanEntry, IsClean, given, refl_or}
use project_talos.Settings.Updating.{names, is_some, updated_value}
use project_talos.Settings.WholeFile.{lookup-update_env}
use project_talos.Settings.Service.{
  UpdateInput, get, updates_of, default_string, parse_proxy_mode, proxy_mode_text,
}

-- At most one line gives the key a value, and that line begins with the key.
abbrev pub once : String → List String → Bool
once key [] = true
once key (line ∷ lines) =
    let rest = once key lines in
    if names key line
    then not (is_some (value_of key lines))
    else not (is_some (assigned key line)) && rest

abbrev pub setting_keys : List String
setting_keys =
    "TALOS_DOMAIN" ∷ "TALOS_ACME_EMAIL" ∷ "TALOS_PROXY_MODE" ∷ "TALOS_EDGE_NETWORK"
    ∷ "TALOS_EDGE_CERT_RESOLVER" ∷ "TALOS_EDGE_ENTRYPOINT" ∷ []

none_of_not : (o : Option String) → not (is_some o) ≡ true → o ≡ none
none_of_not none h = refl
none_of_not (some v) h = absurd cc

both : (x y : Bool) → (x && y) ≡ true → (x ≡ true) × (y ≡ true)
both true y h = (refl, h)
both false y h = absurd cc

abbrev Once : String → String → List String → Bool → Type 0
Once key line lines b =
    (if b
      then not (is_some (value_of key lines))
      else (not (is_some (assigned key line)) && once key lines))
    ≡ true

updated_value-once :
    (key value : String) (lines : List String)
    → once key lines ≡ true
    → updated_value key (some value) lines ≡ given (some value)
unfolding updated_value
updated_value-once key value [] h = refl
updated_value-once key value (line ∷ lines) h = elim (Bool-cases (names key line)) [
  | inl p ↦ rw (p) (
      ap (λ o. or_else o (given (some value)))
        (none_of_not (value_of key lines) (subst (Once key line lines) p h)))
  | inr p ↦
      let (h', rest) = both _ _ (subst (Once key line lines) p h) in
      rw (p) (
        rw (none_of_not (assigned key line) h', updated_value-once key value lines rest)
          (refl_or (given (some value))))
]

-- The texts that are saved are single lines.
pub record IsOneLine (input : UpdateInput) : Type 0 where
  pub domain : has_char b'\n' (trim_space input.domain) ≡ false
  pub acme_email : has_char b'\n' (trim_space input.acme_email) ≡ false
  pub edge_network : has_char b'\n' (trim_space input.edge_network) ≡ false
  pub edge_cert_resolver : has_char b'\n' (trim_space input.edge_cert_resolver) ≡ false
  pub edge_entrypoint : has_char b'\n' (trim_space input.edge_entrypoint) ≡ false

trimmed_entry :
    (key text : String)
    → is_key key ≡ true
    → has_char b'\n' (trim_space text) ≡ false
    → IsCleanEntry (key, trim_space text)
trimmed_entry key text k h = (k, trim_right-trim_space text, h)

default_entry :
    (key text fallback : String)
    → is_key key ≡ true
    → has_char b'\n' (trim_space text) ≡ false
    → IsCleanEntry (key, fallback)
    → IsCleanEntry (key, default_string text fallback)
unfolding default_string
default_entry key text fallback k h f = elim (Bool-cases (trim_space text == "")) [
  | inl p ↦ rw (p) f
  | inr p ↦ rw (p) (trimmed_entry key text k h)
]

pub default_string_idem :
    (text fallback : String)
    → (fallback == "") ≡ false
    → trim_space fallback ≡ fallback
    → default_string (default_string text fallback) fallback ≡ default_string text fallback
unfolding default_string
default_string_idem text fallback n t = elim (Bool-cases (trim_space text == "")) [
  | inl p ↦ rw (p) (rw (t) (rw (n) refl))
  | inr p ↦ rw (p) (rw (trim_space_idem text) (rw (p) refl))
]

pub parse_proxy_mode_idem :
    (text : String)
    → parse_proxy_mode (proxy_mode_text (parse_proxy_mode text)) ≡ parse_proxy_mode text
unfolding parse_proxy_mode trim_space
parse_proxy_mode_idem text = elim (Bool-cases (trim_space text == "external")) [
  | inl p ↦ rw (p) refl
  | inr p ↦ rw (p) refl
]

pub updates_of-IsClean : (input : UpdateInput) → IsOneLine input → IsClean (updates_of input)
unfolding updates_of is_space trim_right
updates_of-IsClean input o = (
  trimmed_entry "TALOS_DOMAIN" input.domain refl o.domain,
  (
    trimmed_entry "TALOS_ACME_EMAIL" input.acme_email refl o.acme_email,
    (
      mode_entry (parse_proxy_mode input.proxy_mode),
      (
        (refl, refl, refl),
        (
          default_entry "TALOS_EDGE_NETWORK" input.edge_network "traefik-public" refl o.edge_network
              (refl, refl, refl),
          (
            default_entry "TALOS_EDGE_CERT_RESOLVER" input.edge_cert_resolver "letsencrypt" refl
                o.edge_cert_resolver (refl, refl, refl),
            (
              default_entry "TALOS_EDGE_ENTRYPOINT" input.edge_entrypoint "websecure" refl
                  o.edge_entrypoint (refl, refl, refl),
              tt,
            ),
          ),
        ),
      ),
    ),
  ),
)
  where
    mode_entry : (mode : ProxyMode) → IsCleanEntry ("TALOS_PROXY_MODE", proxy_mode_text mode)
    mode_entry ProxyMode.internal = (refl, refl, refl)
    mode_entry ProxyMode.external = (refl, refl, refl)

-- After the update, each of the keys that `Load` reads has the value that `Save` wrote.
pub get-updated :
    (updates : Dict) (lines : List String) (key value : String)
    → Lacks 10 lines
    → IsClean updates
    → lookup key updates ≡ some value
    → once key lines ≡ true
    → get key (parse_env (update_env updates lines)) ≡ get key updates
get-updated updates lines key value l c e o =
    ap got (
      lookup-update_env key updates lines l c
      ∙ ap (λ u. updated_value key u lines) e
      ∙ updated_value-once key value lines o)
    ∙ got-given value
    ∙ ap got (sym e)
  where
    got : Option String → String
    got o = elim o [ none ↦ "" | some v ↦ v ]

    got-given : (v : String) → got (given (some v)) ≡ v
    got-given v = elim (Bool-cases (v == "")) [
      | inl p ↦ rw (p) (sym ((eq_iff v "").0 p))
      | inr p ↦ rw (p) refl
    ]
