-- ===== src/Examples/Settings.antt =====
-- The settings theorems on a machine whose files are a function from paths to contents.
use project_talos.Prelude.{
  String, ◌≡◌, refl, Option, none, some, trim_space, split, ◌==◌, string_eq, eq_refl, if◌then◌else◌,
}
use project_talos.Domain.{ok}
use project_talos.Settings.EnvFile.{lookup}
use project_talos.Settings.Reading.{assigned, value_of}
use project_talos.Settings.Updating.{updated_value, is_some}
use project_talos.Settings.Apply.{unknown}
use project_talos.Proxy.{ProxyMode}
use project_talos.Settings.Service.{
  Reading, content, not_exist, Files, Snapshot, UpdateInput, snapshot, save, load, docker_env_path,
  default_string, parse_proxy_mode,
}
use project_talos.Settings.EnvPath.{FileLaws}
use project_talos.Settings.RoundTrip.{load_after_save}

abbrev pub Disk : Type 0
Disk = String → Option String

abbrev pub reading : Option String → Reading
reading none = not_exist
reading (some text) = content text

abbrev pub machine : Files Disk
machine = record {
  inspect_talos = λ disk. none;
  file_exists = λ path disk. is_some (disk path);
  read_file = λ path disk. reading (disk path);
  mkdir_all = λ path disk. (none, disk);
  write_file = λ path text disk. (none, λ q. if path == q then some text else disk q);
}

pub machine-FileLaws : FileLaws machine
machine-FileLaws = record {
  mkdir_same = λ path other disk i c. refl;
  mkdir_inspect = λ path disk. refl;
  write_inspect = λ path text disk. refl;
  write_others = λ path text other disk d. rw (d) refl;
  write_exists = λ path text disk n. rw (eq_refl path) refl;
  write_reads = λ path text disk n. rw (eq_refl path) refl;
}

abbrev pub old_disk : Disk
old_disk path =
    if path == docker_env_path then some "# talos\nTALOS_DOMAIN=old.dev\nPORT=3000\n" else none

abbrev pub new_settings : UpdateInput
new_settings = record {
  domain = " new.dev ";
  acme_email = "ops@new.dev";
  proxy_mode = "external";
  edge_provider = "traefik";
  edge_network = "";
  edge_cert_resolver = "";
  edge_entrypoint = "web";
}

abbrev pub new_disk : Disk
new_disk = (save machine "" new_settings "10.0.0.1" 3000 old_disk).1

abbrev pub shown : Snapshot
shown =
    snapshot machine unknown "" docker_env_path "10.0.0.1" 3000 new_disk "new.dev" "ops@new.dev"
      ProxyMode.external "traefik-public" "letsencrypt" "web"

load_after_save_example : load machine "" "10.0.0.1" 3000 new_disk ≡ ok shown
unfolding save trim_space assigned value_of lookup parse_proxy_mode default_string
load_after_save_example =
    load_after_save machine machine-FileLaws new_settings "10.0.0.1" 3000 old_disk new_disk shown
      record {
        domain = refl;
        acme_email = refl;
        edge_network = refl;
        edge_cert_resolver = refl;
        edge_entrypoint = refl;
      }
      (refl, (refl, (refl, (refl, (refl, (refl, tt)))))) refl

abbrev doubled : String
doubled = "TALOS_DOMAIN=a.dev\nTALOS_DOMAIN=b.dev\n"

doubled_key_keeps_old :
    updated_value "TALOS_DOMAIN" (some "new.dev") (split 10 doubled) ≡ some "b.dev"
unfolding updated_value assigned value_of trim_space
doubled_key_keeps_old = refl
