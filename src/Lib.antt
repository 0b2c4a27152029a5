-- ===== src/Lib.antt =====
-- A model of aion-core, the control plane that runs microservices on edge devices and passes
-- kanbans (messages with files) between them, and proofs about it. Paths are those of the
-- repository.
--
-- The parts, and the files that model them:
--
-- * A project says which services there are, how often each is replicated, which service follows
--   which, and which devices exist. config/yaml_model.go reads it from YAML (Config/Yaml), and
--   config/project.go sets its defaults and answers lookups (Config/Project). The messages are
--   records (Config/Types); a Go map is a list of entries without a fixed order, and what may be
--   nil is an Option. Theorems: Config/Defaults, Config/Routes.
-- * internal/microservice/scale_container.go counts the replicas of a service that are up
--   (Microservice/Scale). The processes behind them are an interface, ContainerOps. Theorems:
--   Microservice/Scale/Laws, Microservice/Fresh. container.go beside it implements that interface
--   with the resources of pkg/k8s: a config map, a job or deployment, and a service
--   (Microservice/Container, theorems in Microservice/Started, Refused, Survives and Stopped; the
--   two together in Microservice/Scale/Running). A start that panics leaves a state in which the
--   program is not alive (Microservice/Scale/Survival).
-- * pkg/k8s describes these resources and applies and deletes them: k8s.go the names and labels
--   (K8s), pod.go the pod (K8s/Pod), deployment.go, job.go, service.go and configMap.go the objects
--   (K8s/Resources), on top of what their Apply and Delete have in common (K8s/Api). The typed
--   clients of client-go, retry-go, the quantities and the embedded file are parameters; the
--   objects of each kind are a state of their own. Theorems: K8s/Laws, K8s/VolumeNames,
--   K8s/Mounts, K8s/Panics.
-- * cmd/service-broker/app/controller.go holds the services of the current project, and its event
--   loop takes new projects and start requests (Broker/State, Broker/Setup, Broker/Requests,
--   Broker/Loop). Its state is passed along explicitly; a nil pointer or a write to a nil map is
--   the result `none`; an event is what one round of `select` takes. Theorems: Broker/Single,
--   Broker/Settings, Broker/Total. watcher.go beside it routes the kanbans that services finish to
--   their next services, on this device or on another (Broker/Watcher, theorems in
--   Broker/Routing); what it does to the other parts is a list of effects. main.go and env.go
--   choose what runs by the mode, and connect a worker to its master (Broker/Main, theorems in
--   Broker/Modes).
-- * internal/devices/controller.go keeps the queues to and from the send-anything server (Devices).
-- * internal/services/project_service.go takes projects from a user and passes them to the broker
--   (Services, theorem in Services/Deletion). worker_watcher_service.go beside it and
--   worker_status_monitor.go of the broker keep the master's view of its workers
--   (Services/Workers, theorem in Services/WorkerLaws); the calls of the workers are events.
-- * internal/kanban/interface.go names the Redis streams (Kanban/Keys, theorems in
--   Kanban/KeyLaws). The messages of proto/kanbanpb/status.pb.go are in Kanban/Types. redis.go
--   beside it writes, watches and deletes kanbans (Kanban/Store) with the calls of
--   pkg/my_redis/redis.go (Redis). go-redis and jsonpb are parameters; what Redis documents of its
--   streams is the record StreamLaws of Kanban/Queue, where the queue that a stream stands for is
--   defined. Theorems: Kanban/Refines, Kanban/Drains. A store in memory that has these laws is in
--   Tests/Store.
-- * cmd/kanban-server/app puts a service's finished kanbans on its stream and sends it those that
--   wait for it (KanbanServer), over the record Adapter of Kanban/Store. Theorems:
--   KanbanServer/Sessions.
-- * cmd/kanban-replicator/app copies kanbans into MongoDB (Replicator, theorems in
--   Replicator/Copies and Replicator/Watched).
-- * pkg/go-client/msclient is the library by which a service talks to the kanban server (Client,
--   theorems in Client/Closing).
-- * cmd/send-anything sends a kanban and its files to another device. client.go and
--   baggage/content.go are the sender (SendAnything/Baggage, Send, Take, Folder), server.go is the
--   receiver (SendAnything/Builder, Receive, Download, Request) and holds the connection of the
--   service broker, whose events are a list (SendAnything/BrokerConn). The files of the machine,
--   MD5, the packing of google.protobuf.Any, the stream and retry.Do are parameters
--   (SendAnything/Outside, and Source in Take). Theorems: Checked, Ends, SendEnds, EndOfStream,
--   Subdirectory, TwoWays, and RoundTrip with its parts Arrives, Chunks and Accepts.
--
-- Prelude has shared types and lemmas, with strconv.Itoa and %03d in Prelude/Decimal; Filepath is
-- Go's path/filepath on a Unix system. The modules under Tests apply the theorems to concrete data.
--
-- Numbers: an `int` is an integer without a bound, since no count comes near 2 ^ 63. The
-- conversion to an `int32` is to_int32 of Prelude/Int, with its wrap-around; an `int32` that is
-- counted up is a number below 2 ^ 32, with the wrap-around written out (u32).
--
-- Fuel: the loops of downloadAnything and downloadDir have one round for each message that the
-- stream still holds and one more; that of sendFileContent has one for each byte of the file and
-- one more (SendAnything/Ends and SendAnything/SendEnds). The watcher of a stream, the loops of the
-- servers and the status monitor take as many rounds as there are events in their argument.
--
-- Not modelled: the command line client cmd/aionctl and the gRPC client of internal/services that it
-- uses, logging and MongoDB's connection, which are input and output only; PodsWatcher, which only
-- logs; reading flags and environment variables, listening sockets, dialling and signals; the pool
-- of Redis connections; the delays between retries. Goroutines appear as what they were started
-- with; locks do not appear, since each handler runs whole. A message that is sent on a channel is
-- the value at that time, where the program sends a pointer.
-- Nor are these: nil elements of the maps and lists of a project other than its services, which
-- protobuf does not send, and which in a YAML file make the mapping panic; the random order of the
-- entries of a Go map, for which a list has one order; what becomes of an empty map on its way
-- through gRPC, which is taken to be the identity; the panics of make() for a negative or huge size
-- or number of files in a header, and of os.Stat for a directory that is there and cannot be read;
-- a stream that stays open without a message, or never ends, since a stream is a list with an error
-- at its end; and the end of the process by app.GetConfig of the sender.
mod Prelude
pub mod Filepath
pub mod Redis
pub mod Config
pub mod K8s
pub mod Microservice
pub mod Kanban
pub mod KanbanServer
pub mod Devices
pub mod Replicator
pub mod Client
pub mod SendAnything
pub mod Broker
pub mod Services
mod Tests
