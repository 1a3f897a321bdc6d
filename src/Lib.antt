-- ===== src/Lib.antt =====
-- SkyLB: a load balancer for gRPC services. Servers report their endpoints to it, it keeps them in
-- etcd (or reads them from Kubernetes), and it streams the endpoints of services to the clients that
-- resolve them.
--
-- The program's parts and their files here:
--
-- * Go/ has the functions of the Go library that the code uses: strings, strconv, path, and maps. A
--   text is the list of its bytes. A map is the list of its entries in the order in which a range
--   loop visits them, so a theorem about a range loop is one for every order.
-- * Api has the Kubernetes objects of proto/types.go, the messages of skylb-api, and the nodes and
--   the errors of the etcd client. Deps has what the code uses and does not implement, as one record
--   of operations, with the laws of those operations in the records HasPaths, JsonLaws, EtcdLaws:
--   a theorem that needs one takes it as a hypothesis.
-- * Hub/Key is hub/key.go and hub/util/key.go: the keys of services and endpoints, and the writes.
-- * Hub/Endpoints is hub/endpoints.go with the conversions at the end of hub/hub.go: findPort,
--   diffEndpoints, skypbEndpointsToMap and skypbEndpointsToSlice.
-- * Hub/Register is InsertEndpoint, UpsertEndpoint and fetchEndpoints of hub/hub.go.
-- * Hub/State is the state of the hub: the services with their observers, the tracked graph keys, the
--   counter of updates, the channels with their buffers and capacities, the stopped observers, and
--   the goroutines that applyEndpoints has started.
-- * Hub/Observers is AddObserver and RemoveObserver of hub/observer.go, with fetchK8sEndpoints of
--   hub/k8s.go.
-- * Hub/Updates is extractUpdates, updateEndpoints and applyEndpoints of hub/hub.go and
--   applyK8sEndpoints of hub/k8s.go.
-- * Hub/Watcher is startMainWatcher of hub/hub.go and the handler of startK8sWatcher of hub/k8s.go,
--   and a step relation in which their events, the goroutines of applyEndpoints, the ticks of the
--   rectification, the receives of Resolve, and the critical sections of AddObserver and RemoveObserver
--   interleave.
-- * Hub/Tracking is TrackServiceGraph, UntrackServiceGraph and a tick of startGraphTracking of
--   hub/hub.go; Hub/Graph is hub/svcgraph.go, which reads the graph back.
-- * Hub/Model is the service object and the client observer of hub/model, which the hub does not use;
--   Hub/Rectifier is startAutoRectify of hub/model/service.go, whose goroutines move between its calls.
-- * Rpc/Server is Resolve and ReportLoad of rpc/server.go, which call the hub.
-- * Cmd/Bridge is cmd/skybridge/bridge.go, which copies the endpoints of one etcd cluster to another.
-- * Cmd/Webserver is cmd/webserver: the list of the services and the tree of calls of
--   svclist/etcdop.go, which prints the graph of Hub/Graph, and the requests of main.go.
-- * Cmd/Health is cmd/grpchealth/healthlib.go, as the calls that the checks make on the metrics.
-- * Cmd/Shell is cmd/skylb-command/cmd: the variables of the shell, its commands, and the loop of main.
-- * Dashboard/Users and Dashboard/Database are dashboard/db: the text of the roles, and the
--   transactions on users and logs. The database is a record of operations, with its laws in TxLaws.
-- * Dashboard/Handlers is the handlers of dashboard, on the database and the calls of skylb-api;
--   Dashboard/Services is services.go, the reading part of instance.go and util/service.go.
-- * Examples/ runs the theorems at concrete inputs, in a cluster in memory.
--
-- State is passed explicitly: an operation takes the hub and the state of the cluster and returns
-- them. An operation runs from its start to its end at once, AddObserver too, in which the program
-- releases the lock of the hub between the specs; what other goroutines do in between is said in the
-- step relation of Hub/Watcher. What they do while the loop of Resolve runs is a parameter, `during`. What a stream or a select statement delivers is a list. A send on a full
-- channel is the result none or waiting. Integers are ℤ; int32 weights are cut to 32 bits where the
-- code converts, and the counter of updates wraps at 64 bits. Fuel: that of the decimal digits in
-- Go/Strconv, one more than the number; the retries of TrackServiceGraph, which are three in the code;
-- and that of traverse_calls in Cmd/Webserver/Tree, for which Cmd/Webserver/Acyclic says when there is
-- enough. A panic is a result of its own: none, or panics for a command of the shell.
--
-- Not modelled: metrics other than those of the health checks, logs and flags, what the shell prints,
-- the watcher of lame ducks, the creation of the clients, the locks, the panic of a channel of the hub
-- that is closed twice, the templates and the
-- start-up of the dashboard, and the remaining programs under cmd, which only wire the parts.
pub mod Prelude
pub mod Go
pub mod Api
pub mod Deps
pub mod Hub
pub mod Rpc
pub mod Cmd
pub mod Dashboard
pub mod Examples
