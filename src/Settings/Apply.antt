-- ===== src/Settings/Apply.antt =====
-- internal/settings/service.go: the address, and the text that tells the administrator how to apply
-- the saved values.
use project_talos.Prelude.{
  ℕ, String, ◌<>◌, Bool, not, ◌&&◌, ◌||◌, List, [], ◌∷◌, ◌++◌, show, join, trim_space, has_char,
  dir, join_path, ◌==◌, string_eq, if◌then◌else◌,
}
use project_talos.Proxy.{ProxyMode, internal, external, is_external}

pub data InstallMode : Type 0 where
  unknown docker bare : InstallMode

unfoldable pub configured_url : String → String → ℕ → String
configured_url domain fallback_host port =
    let domain = trim_space domain in
    let host = trim_space fallback_host in
    let host = if host == "" || host == "0.0.0.0" then "localhost" else host in
    if not (domain == "")
    then "https://" <> domain
    else if has_char b':' host
    then "http://" <> host
    else "http://" <> host <> ":" <> show port

unfoldable pub apply_title : InstallMode → ProxyMode → String
apply_title docker external = "Recreate Talos and reconnect it to the shared edge proxy network"
apply_title docker internal = "Recreate the Talos container"
apply_title bare _ = "Restart the Talos service"
apply_title unknown _ = "Apply the saved configuration"

unfoldable pub apply_description : InstallMode → ProxyMode → String
apply_description docker external =
    "Saving updates /opt/talos/.env, but the running Talos container and any new external-proxy label behavior keep using the old values until you recreate Talos and reconnect it to the shared edge network."
apply_description docker internal =
    "Saving updates /opt/talos/.env, but the running Talos container keeps using the old values until you recreate it."
apply_description bare external =
    "Saving updates the env file, but the running Talos process and your external proxy keep using the old values until Talos restarts and new app deployments publish updated labels."
apply_description bare internal =
    "Saving updates the env file, but the running Talos process keeps using the old values until the systemd service restarts."
apply_description unknown _ =
    "Saving updates the env file, but Talos will not use the new values until the current runtime is restarted."

abbrev private_key_path : String → String
private_key_path env_path = join_path (dir env_path ∷ "github-app.private-key.pem" ∷ [])

abbrev mount_lines : Bool → String → List String
mount_lines exists path = if exists then ("  -v " <> path <> ":" <> path <> ":ro \\") ∷ [] else []

-- `dockerPrivateKeyMountArg`
abbrev mount_arg : Bool → String → String
mount_arg exists path = if exists then "  -v " <> path <> ":" <> path <> ":ro \\\n" else ""

abbrev domain_labels : String → String → String → List String
domain_labels domain edge_network edge_cert_resolver =
    if domain == ""
    then []
    else "  --label traefik.enable=true \\"
      ∷ ("  --label traefik.docker.network=" <> edge_network <> " \\")
      ∷ ("  --label traefik.http.routers.talos.rule=Host(`" <> domain <> "`) \\")
      ∷ "  --label traefik.http.routers.talos.entrypoints=websecure \\"
      ∷ "  --label traefik.http.routers.talos.tls=true \\"
      ∷ ("  --label traefik.http.routers.talos.tls.certresolver=" <> edge_cert_resolver <> " \\")
      ∷ "  --label traefik.http.services.talos.loadbalancer.server.port=3000 \\"
      ∷ []

-- The arguments that `applyCommand` takes
pub record ApplyInput : Type 0 where
  pub docker_image : String
  pub env_path : String
  pub port : ℕ
  pub edge_network : String
  pub edge_cert_resolver : String
  pub domain : String

abbrev image_or_default : String → String
image_or_default image =
    if image == "" then "ghcr.io/logic-roastery/project-talos:latest" else image

external_command : (String → Bool) → ApplyInput → String
external_command file_exists i =
    let image = image_or_default i.docker_image in
    join "\n" (
      (("docker pull " <> image)
        ∷ "docker stop talos"
        ∷ "docker rm talos"
        ∷ ("docker network inspect " <> i.edge_network
            <> " >/dev/null 2>&1 || docker network create " <> i.edge_network)
        ∷ "docker run -d \\"
        ∷ "  --name talos \\"
        ∷ "  --restart unless-stopped \\"
        ∷ "  --network talos \\"
        ∷ ("  -p " <> show i.port <> ":3000 \\")
        ∷ "  -v /var/run/docker.sock:/var/run/docker.sock \\"
        ∷ "  -v /opt/talos/data:/data \\"
        ∷ ("  -v " <> i.env_path <> ":" <> i.env_path <> " \\")
        ∷ [])
      ++ mount_lines (file_exists (private_key_path i.env_path)) (private_key_path i.env_path)
      ++ (("  --env-file " <> i.env_path <> " \\") ∷ [])
      ++ domain_labels i.domain i.edge_network i.edge_cert_resolver
      ++ (("  " <> image) ∷ ("docker network connect " <> i.edge_network <> " talos") ∷ []))

internal_command : (String → Bool) → ApplyInput → String
internal_command file_exists i =
    "docker stop talos\ndocker rm talos\ndocker run -d \\\n  --name talos \\\n  --restart unless-stopped \\\n  --network talos \\\n  -p "
    <> show i.port
    <> ":3000 \\\n  -v /var/run/docker.sock:/var/run/docker.sock \\\n  -v /opt/talos/data:/data \\\n  -v "
    <> i.env_path
    <> ":"
    <> i.env_path
    <> " \\\n"
    <> mount_arg (file_exists (private_key_path i.env_path)) (private_key_path i.env_path)
    <> "  --env-file "
    <> i.env_path
    <> " \\\n  "
    <> image_or_default i.docker_image

-- `defaultFileExists` is the argument `file_exists`.
unfoldable pub apply_command : (String → Bool) → InstallMode → ProxyMode → ApplyInput → String
unfolding external_command internal_command
apply_command file_exists docker external i = external_command file_exists i
apply_command file_exists docker internal i = internal_command file_exists i
apply_command file_exists bare proxy_mode i =
    if is_external proxy_mode && not (i.domain == "")
    then "sudo systemctl restart talos\n# Then update your external proxy to route Host(`"
      <> i.domain <> "`) to http://<server-ip-or-host>:3000"
    else "sudo systemctl restart talos"
apply_command file_exists unknown _ i =
    "Restart the running Talos process so it reloads " <> i.env_path
