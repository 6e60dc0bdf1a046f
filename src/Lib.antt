-- ===== src/Lib.antt =====
-- Verification of finch-daemon, a daemon that serves the Docker API over containerd and nerdctl.
--
-- A request passes an HTTP handler (api/handlers/*), which checks it, calls a service
-- (internal/service/*) and maps the service's error to a status code. A service works over the
-- interfaces of internal/backend, whose methods pass the call on to nerdctl and containerd.
--
-- Conventions. A Go error is a value of `GoError`. A method that calls out is an action of `Act`:
-- a function of the outside world `W` that gives a result or an error, and the world that it left.
-- nerdctl and containerd are a record of operations on `W` that the definitions take as a
-- parameter; what a theorem needs of them is a hypothesis. A ResponseWriter is the record `Writer`.
-- Logging, the time-outs of contexts and the closing of files are left out. Texts are valid UTF-8.
--
-- Files:
-- - Prelude: shared names, tests on numbers, list predicates; Prelude/Int: signed integers.
-- - Act: actions with errors. Go/Strconv, Go/Strings, Go/Decimal and Go/Maps: what is used of Go's
--   standard library, and its maps as association lists.
-- - Errors: pkg/errdefs/errdefs.go.
-- - Http: api/response/json.go and error.go. Http/Stream: api/response/streamwriter.go, with
--   the image pull writer in Http/Stream/Pull.
-- - Containers/Backend: the interface to nerdctl and containerd, and GetContainerStatus of
--   internal/backend/containerd.go. Containers/Service: internal/service/container/container.go,
--   start.go, stop.go, pause.go, unpause.go, kill.go, restart.go, remove.go, rename.go, wait.go.
--   Containers/Handlers: the files of the same names in api/handlers/container; Keys is the
--   check of detach keys in start.go.
-- - Containers/Create: the create of a container. Request is ContainerCreateRequest of
--   api/types/container_types.go; Translate, Volumes, Ports, Devices, Options and Handler are
--   api/handlers/container/create.go, and Service is internal/service/container/create.go. A nil
--   slice or map is an empty one. Ports/Translated describes the port mappings, and Served what a
--   request leads to, with Usable for its devices.
-- - Containers/Top: top.go of both folders; Rows is the table that the output of ps is parsed to.
-- - Images: the files of internal/service/image and api/handlers/image but list and load.
--   Reference is the splitting of names, Auth api/auth/auth.go and pkg/utility/authutility,
--   Removal what a remove deletes and lists, Transfer pull, push and export.
-- - Volumes: internal/service/volume and api/handlers/volume.
-- - Distribution: internal/service/distribution, api/handlers/distribution and
--   pkg/utility/imageutility. A panic is a result of its own.
-- - System: the login of internal/service/system/auth.go and its handler. Bounded counts the calls
--   of the registry client's Do in a copy of the backend that notes the host of each.
-- - Exec: internal/service/exec and api/handlers/exec, and in Exec/Create the creation of a process
--   in internal/service/container/exec.go with its handler. Stream is the start handler, over the
--   hijacked connection, and the reader of standard input.
-- - Network/Locks: the mutexes of internal/service/network/network.go, one to a network name, and
--   the order in which create.go and remove.go take them, with the deferred clean-up of Create: a
--   step relation for any number of requests. What they do between is in Network/Service.
-- - Network/Service: Create and Remove of a request that is alone, so that a mutex it asks for is
--   free unless it holds it; a Create that waits for its own mutex has no result.
--   Network/Connect: connect.go, with the undoing of a connection that fails; the index of a network
--   is an int of 64 bits, which wraps. Network/Handlers: api/handlers/network. Network/Naming: what
--   the lookup by the start of an ID means. Network/Listing: inspect.go and list.go.
-- - Network/Bridge: internal/service/network/driver/bridge.go; Config is the edit of the
--   configuration file, as decoded JSON, and Actions what is done after the creation and at the
--   removal of a network.
-- - Network/Iptables: internal/service/network/driver/iptables.go. The IPTablesWrapper of each
--   protocol is a record of operations; what iptables documents of them is a hypothesis.
-- - Credentials/Cache: pkg/credential/credential.go. Credentials/Server:
--   api/credential/credential.go. A range over a Go map visits the keys in an order that is a
--   parameter.
-- - Builder/Options and Builder/Handler: api/handlers/builder/build.go, with api/auth/auth.go and
--   pkg/utility/maputility/utility.go. Builder/Service: internal/service/builder/build.go.
--   Every outside call may change the whole state, so that other requests may run meanwhile.
-- - Router: the middlewares of api/router/router.go; the policy's evaluation is a parameter.
--   Router/PolicyFile: checkRegoFileValidity of cmd/finch-daemon/router_utils.go.
-- - Stats: internal/service/container/stats.go and, in Stats/Cpu, pkg/statsutil/statsutil.go.
--   Numbers of 64 bits wrap where the source multiplies or adds them.
--
-- Not modelled: events, info and version of the system, the list and load of images, the attach,
-- inspect, list, logs and archives of containers, the statistics handler, the filters of requests,
-- the password file, the retry of flock, the commands but for the check of the policy file, and the
-- wrappers of internal/backend, which pass calls on (most of builder.go there is a copy of
-- nerdctl's code).
pub mod Prelude
pub mod Errors
pub mod Act
pub mod Go
pub mod Http
pub mod Containers
pub mod Network
pub mod Credentials
pub mod Builder
pub mod Stats
pub mod Router
pub mod Images
pub mod Volumes
pub mod Exec
pub mod Distribution
pub mod System
