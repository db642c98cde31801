-- ===== src/Examples/Config.antt =====
-- The theorem on the configuration with the settings that are saved in Examples/Settings.
use project_talos.Prelude.{String, ◌≡◌, refl, trim_space}
use project_talos.Settings.EnvFile.{lookup, parse_env}
use project_talos.Settings.Reading.{assigned, value_of}
use project_talos.Settings.RoundTrip.{env_file}
use project_talos.Settings.Service.{content, save, default_string, parse_proxy_mode}
use project_talos.Config.{server_config}
use project_talos.Config.Saved.{HasSettings, environment, load_config-saved}
use project_talos.Examples.Settings.{
  machine, machine-FileLaws, new_settings, old_disk, new_disk, shown,
}

abbrev no_others : String → String
no_others key = ""

load_config-saved_example :
    (text : String) × (machine.read_file (env_file machine machine-FileLaws new_disk) new_disk
      ≡ content text)
    × HasSettings (server_config (environment (parse_env text) no_others)) shown
unfolding save trim_space assigned value_of lookup parse_proxy_mode default_string
load_config-saved_example =
    load_config-saved machine machine-FileLaws new_settings "10.0.0.1" 3000 old_disk new_disk shown
      no_others
      record {
        domain = refl;
        acme_email = refl;
        edge_network = refl;
        edge_cert_resolver = refl;
        edge_entrypoint = refl;
      }
      (refl, (refl, (refl, (refl, (refl, (refl, tt)))))) refl
      (refl, (refl, (refl, (refl, (refl, (refl, tt))))))
