-- ===== src/Handlers/Ports.antt =====
-- internal/server/handlers/app.go on internal/store/app_repo.go: the port that an app is given.
use project_talos.Prelude.{
  ℕ, ◌≡◌, refl, ◌<◌, ◌≤◌, Option, none, some, List, [], ◌∷◌, All, All-map, ltb, Bool-cases, inl,
  inr, ◌<>◌, show, ◌==◌, string_eq, if◌then◌else◌, arith,
}
use project_talos.Domain.{App, AppType, AccessMode, ok}
use project_talos.Action.{◌>>=◌}
use project_talos.Handlers.{AppServer, with_port, access_by_type, apply_access_fields}
use project_talos.Store.{Database, Sqlite}
use project_talos.Store.Apps.{larger_port, max_port, next_port, next_fallback_port}

-- A port that is not above the largest one, or is 0 where there is none.
abbrev IsBelow : Option ℕ → ℕ → Type 0
IsBelow none port = port ≡ 0
IsBelow (some largest) port = port ≤ largest

larger_port-IsBelow : (o : Option ℕ) (port : ℕ) → IsBelow (larger_port o port) port
larger_port-IsBelow none port = elim (Bool-cases (ltb 0 port)) [
  | inl p ↦ rw (p) (omega arith)
  | inr p ↦ rw (p) (ground (arith, p))
]
larger_port-IsBelow (some n) port = elim (Bool-cases (ltb n port)) [
  | inl p ↦ rw (p) (omega arith)
  | inr p ↦ rw (p) (ground (arith, p))
]

larger_port-keeps :
    (o : Option ℕ) (port other : ℕ) → IsBelow o other → IsBelow (larger_port o port) other
larger_port-keeps none port other h = elim (Bool-cases (ltb 0 port)) [
  | inl p ↦ rw (p) (omega (arith, h))
  | inr p ↦ rw (p) h
]
larger_port-keeps (some n) port other h = elim (Bool-cases (ltb n port)) [
  | inl p ↦ rw (p) (ground (arith, p, h))
  | inr p ↦ rw (p) h
]

max_port-IsBelow : (apps : List App) → All (λ a. IsBelow (max_port apps) a.fallback_port) apps
max_port-IsBelow [] = tt
max_port-IsBelow (a ∷ apps) = (
  larger_port-IsBelow (max_port apps) a.fallback_port,
  All-map (λ b h. larger_port-keeps (max_port apps) a.fallback_port b.fallback_port h) apps
      (max_port-IsBelow apps),
)

below_next : (o : Option ℕ) (port : ℕ) → IsBelow o port → port < next_port o
below_next none port h = omega (arith, h)
below_next (some n) port h = omega (arith, h)

module _ (sqlite : Sqlite) (server : AppServer Database)
    (next_is : (db : Database) → server.next_fallback_port db ≡ next_fallback_port sqlite db) where
  -- A managed app without a domain is given a port that is above 0 and above the port of every app in
  -- the table. An app that is updated is among them, so it is given another port than it had.
  managed_port_is_fresh :
      (app : App) (db : Database)
      → app.domain ≡ ""
      → app.app_type ≡ AppType.managed
      → (app' : App) × (apply_access_fields server app db ≡ (ok app', db))
        × (app'.access_mode ≡ AccessMode.port)
        × (0 < app'.fallback_port)
        × All (λ row. row.fallback_port < app'.fallback_port) db.apps
  unfolding apply_access_fields access_by_type with_port next_fallback_port ◌>>=◌
  managed_port_is_fresh app db d m = (
    record app {
      fallback_port = next_port (max_port db.apps);
      access_mode = AccessMode.port;
      access_url =
          "http://"
          <> (if server.server_domain == "" then server.server_host else server.server_domain)
          <> ":"
          <> show (next_port (max_port db.apps));
    },
    rw (d, m, next_is db) refl,
    refl,
    positive (max_port db.apps),
    All-map (λ row h. below_next (max_port db.apps) row.fallback_port h) db.apps
        (max_port-IsBelow db.apps),
  )
    where
      positive : (o : Option ℕ) → 0 < next_port o
      positive none = omega arith
      positive (some n) = omega arith
