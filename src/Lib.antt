-- ===== src/Lib.antt =====
-- Talos, a self-hosted platform that deploys apps as Docker containers behind Traefik
-- (github.com/logic-roastery/project-talos). Requests reach the HTTP handlers
-- (internal/server/handlers), which read and write the SQLite stores (internal/store) and ask the
-- deploy engine (internal/deploy/engine.go) for deploys and rollbacks. The engine runs each deploy in
-- a goroutine: it builds or pulls an image, starts a staging container beside the live one, waits for
-- its health check, moves the proxy's route (internal/proxy/traefik) and stops the old container. Each
-- step is an event, which is stored and sent to the subscribers of the deploy by the broadcaster
-- (internal/deploy/event_broadcaster.go).
--
--   Domain      internal/domain: apps, deploys, events, users, backups, services, errors
--   Action      stateful code as functions from a world to a value and the next world, and Hoare
--               triples over them
--   Store       internal/store: the tables, and the statements of app_repo.go, deploy_repo.go,
--               backup_repo.go, user_repo.go and service_repo.go; References, Lookups, Latest and Names
--               prove what the statements keep and what a query answers, EnvVarMap and EnvVarWrites
--               that the variables' table stands for a map; Migrations is the runner of migrations.go,
--               Migrated what it leaves, and Interrupted what it leaves after a failure
--   Proxy       internal/proxy/traefik/manager.go: routes, labels and networks of an app
--   Engine      internal/deploy/engine.go. Interface is what the engine calls; EnvVars and Finish are
--               its helpers; Execute is `execute`, Queue is `executeQueued` and the build, Request is
--               `Deploy` and `Rollback`. Terminal, Health, Required and BlueGreen prove what a run leaves,
--               Accept, OneAtATime and Rollback which requests are accepted; Harmless, BeforeStart and
--               AfterStart walk through the stages of a run for them; Containers says what the calls do
--               to the containers
--   Broadcast   internal/deploy/event_broadcaster.go: subscriptions, publications, and their
--               interleavings
--   Handlers    internal/server/handlers/app.go: the API of the apps; Ports, Access and Stored prove
--               which address an app is given and what an answer says of the store. Services, Managed
--               and Buckets are handlers/service.go, the API of the managed services; Required proves
--               what setting a variable changes
--   Services    internal/services/provisioner.go: managed services. Container is the configuration of
--               their containers, Provision starts and stops them, Garage gives a service its bucket,
--               Generators draws passwords and names; Readable and Started prove what a provisioning
--               leaves
--   Auth        internal/auth/auth.go, handlers/auth.go and the middleware of internal/server: Sessions
--               proves which tokens are valid, Served which requests pass, Setup how many users it makes
--   Settings    internal/settings/service.go: Talos's own settings. EnvFile reads and writes the env
--               file, Apply is the command that applies it, Service is Load and Save; Reading, Appending,
--               Updating and WholeFile prove what an updated file says, Values, EnvPath and RoundTrip
--               what is loaded after a Save
--   Backups     internal/backup/manager.go; Retention proves which backups it removes. Restore is the
--               restoration of an archive, Restored proves what it leaves in the files
--   Detect      internal/builder/detect: the plan of a project and its Dockerfile. Plan is the tree of
--               files, Scanning reads texts; Node, GoMain, Java and Providers are the providers,
--               Dockerfile the templates. Choice proves which provider plans a project, Whole (with
--               Node.Shape) that its Dockerfile exposes the port of every plan, MainPackages (with MainDepth) and
--               Target which Go package is built
--   Builder     internal/builder/builder.go: the clone and the build; Naming makes its names, Cleanup
--               proves what becomes of the clone's folder, Built what a build yields
--   DeployApi   internal/server/handlers/deploy.go: the API of the deploys; Stream is StreamEvents, Ended
--               proves when a stream ends
--   Config      internal/config/config.go; Saved proves what a start after a save reads
--   Webhook     the webhook of internal/server/server.go; Guards proves which events start a deploy
--   Examples    the theorems at concrete inputs
--
-- How the code is modelled. A method that returns an error returns a `Result` or an `Option Error`;
-- the calls of a handler stand in the order of the source, and `execute` is cut at its early returns
-- into stages that call each other. Log lines are left out. What the engine calls outside itself is
-- the record `Engine.Interface.Environment`, so that a theorem about a run holds for every answer of
-- the stores, Docker, the proxy and the builder; where a theorem is about their effect it names the law
-- that it uses (`ContainerLaws`: a container is started and stopped only by the calls that name it;
-- `SortLaws`: what ORDER BY promises; `FileLaws`: a file that was written is read back and the others
-- stay; `Decrypts`: a text is decrypted to what was encrypted; `IsBelow`: a random number is below its
-- bound; `TokenLaws`: a number and a payload are read back and have no separator in them). The goroutine that creates a service is a job that runs after the reply, and a decrypted
-- text is taken to be the JSON that was encrypted. A Garage service is provisioned with Garage credentials: with
-- others the source panics, and the model leaves its files out. The stores are modelled on a SQLite that answers: an I/O error
-- is not, the constraints of the schema are. Ids, ports and seconds are natural numbers without a
-- bound; the AUTOINCREMENT ids and the broadcaster's counter are 64-bit in the source and do not wrap
-- in any realistic run. The
-- stream of events recurs on the signals that its `select` picks, and waits where they end, and the
-- walk of a project on its tree. No function of the model runs on fuel; the
-- attempts to create a bucket are counted as in the source, ten of them.
--
-- Not modelled: the HTML pages and templates (web, handlers/pages.go, app_views.go), the GitHub client
-- and setup pages (internal/github), the Docker client (internal/runtime/docker), which is a parameter,
-- as are Garage's admin API (internal/services/garage.go) and the encryption (internal/crypto), the
-- making of a backup's archive and the scheduler of backups, the files and the container of Traefik,
-- and the wiring (cmd/talos). They are I/O of other programs and presentation.
pub mod Prelude
pub mod Domain
pub mod Action
pub mod Store
pub mod Proxy
pub mod Engine
pub mod Broadcast
pub mod Handlers
pub mod Webhook
pub mod Detect
pub mod Builder
pub mod DeployApi
pub mod Backups
pub mod Settings
pub mod Config
pub mod Services
pub mod Auth
pub mod Examples
