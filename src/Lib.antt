-- ===== src/Lib.antt =====
-- A verification library for Beyla, the OpenTelemetry auto-instrumentation agent: its admission
-- webhook, which injects the OpenTelemetry SDK into Kubernetes pods, its process harvester, its
-- exporters of process metrics and of surveyed services, its export of connection spans, its
-- configuration, and the generator of the schema of that configuration.
--
-- The program. Beyla's webhook (pkg/webhook) answers the API server's admission requests for pods:
-- the mutator decides by the selectors of the configuration (pkg/beyla/config.go) whether a pod is
-- to be instrumented, and if so mounts a volume with the SDK, sets the environment variables that
-- load and configure it, and labels the pod with the version. At its start the webhook's server
-- scans the processes of the node, removes SDK versions from the host that are older than any in
-- use, and from then on gets an event for each pod: a pod with processes of this node that should be
-- instrumented and is not, or is and should not, has its deployment restarted through the API
-- server, so that the mutator sees its pods anew.
-- The collector (pkg/internal/infraolly/process) learns from the spans which processes to follow. At
-- each tick of its interval it has the harvester read the statistics of each of them from /proc; the
-- harvester keeps the last snapshot of a process in a cache, and returns absolute values and deltas.
-- The collector stops to follow a process that cannot be read, trims the cache to the processes that
-- were, and sends the statuses to the exporters of process metrics: pkg/export/otel/metrics_proc.go
-- for OpenTelemetry and pkg/export/prom/prom_proc.go for Prometheus, which choose by the configured
-- attributes whether modes and directions are told apart.
-- The survey exporters (pkg/export/otel/metrics_survey.go and pkg/export/prom/prom_survey.go) get an
-- event for each process that was found or has ended, and export one survey_info series for each
-- service that has a process. The export of connection spans (pkg/export/otel/connect_spans.go)
-- groups the spans between clusters by service and sends each group as traces. The configuration
-- (pkg/beyla) is validated before anything starts; it decides which of these parts run, and routes
-- what the exporters send to Grafana Cloud where its settings say so. The webhook, the
-- process metrics, the survey and the connection spans do not call each other. The schema generator
-- (cmd/beyla-schema) is a program of its own: it scans the Go sources of the configuration for
-- enumerations, environment variables and inlined fields, has a reflector make a JSON schema of the
-- configuration's type, and passes over that schema: inlined properties, deprecations, environment
-- variables, line breaks, order.
--
-- The files.
--   Prelude            Go's maps and strings, Boolean tests, lists.
--   Webhook/Kube       the Kubernetes objects, as far as the webhook reads them.
--   Webhook/Deps       the libraries that the webhook calls, with what their documentation promises.
--   Webhook/Config     pkg/beyla/config.go: SDKInject, SDKExport, SDKResource, Validate.
--   Webhook/Env        the writes to a container's environment in pkg/webhook/mutator.go and
--                      env_vars.go: findEnvVar, setEnvVar, setEnvVarEvenIfEmpty,
--                      setEnvVarFromFieldPath.
--   Webhook/Owners     the owners of a pod: ownersFrom, addParentResourceLabels, topOwner.
--   Webhook/Service    the choose... functions of pkg/webhook/env_vars.go and the instance id.
--   Webhook/EnvVars    addEnvVars, configureContainerEnvVars and what they call.
--   Webhook/Process    ProcessInfo of pkg/webhook/scanner.go and processMetadata.
--   Webhook/Matcher    pkg/webhook/matcher.go.
--   Webhook/Mutator    mutatePod and what it calls in pkg/webhook/mutator.go.
--   Webhook/Handler    NewPodMutator and HandleMutate of pkg/webhook/mutator.go.
--   Webhook/Bouncer    pkg/webhook/bouncer.go.
--   Webhook/Container  pkg/webhook/container.go.
--   Webhook/Scanner    pkg/webhook/scanner.go.
--   Webhook/Server     pkg/webhook/server.go.
--   Int64                  int64 arithmetic with its wrap-around, strconv.ParseInt and ParseUint.
--   Harvester/Stat         parseProcStat of pkg/internal/infraolly/process/snapshot.go.
--   Harvester/CommandLine  fetchCommandInfo, getNextArg and sanitizeCommandLine of that file.
--   Harvester/Snapshot     linuxProcess, getLinuxProcess, Username and IOCounters of that file.
--   Harvester/Harvest      pkg/internal/infraolly/process/harvest.go, and Status of status.go.
--   Harvester/Collect      collect.go of that directory, and the cache in harvest.go.
--   Export/Features        pkg/export/otel/bexport/features.go.
--   Export/Labels          the labels of pkg/export/prom/prom.go.
--   Export/Survey          pkg/export/prom/prom_survey.go.
--   Export/Survey/Otel     pkg/export/otel/metrics_survey.go.
--   Export/Process         the getters of pkg/internal/infraolly/process/status.go, and the names of
--                          pkg/export/extraattributes.
--   Export/Process/Prom    pkg/export/prom/prom_proc.go.
--   Export/Process/Otel    pkg/export/otel/metrics_proc.go.
--   Settings/Discovery     pkg/services/criteria.go.
--   Settings/Features      pkg/beyla/config.go: what of Config decides on the features, the predicates
--                          of the features, ExternalLogger and normalizeConfig.
--   Settings/Validate      Config.Validate of that file.
--   Settings/Grafana       pkg/export/otel/grafana.go and ResolveOTLPEndpoint of common.go beside it.
--   Settings/Obi           overrideOBI of pkg/beyla/config_obi.go.
--   Startup                RunBeyla, internalMetrics and the resource labels of pkg/components/beyla.go,
--                          and the choice of the pipeline in pkg/internal/discover/finder.go.
--   Connect/Spans          GroupConnectionSpans, GenerateConnectSpans, processSpans and spanStartTime
--                          of pkg/export/otel/connect_spans.go.
--   Connect/Queue          getQueueConfig and getRetrySettings of that file.
--   Schema/Tags            extractTagValue of cmd/beyla-schema/main.go.
--   Schema/Scan            scanPackages and the extract functions of that file.
--   Schema/Nodes           jsonschema.Schema, and visitNestedSchemas of that file.
--   Schema/Passes          its passes by visitors: sortSchemaProperties, processDeprecated and
--                          normalizeDescriptions.
--   Schema/EnvVars         its processEnvVars.
--   Schema/Inline          its processInlineFields.
--   Schema/Roots           its findModuleRoot and findOBIModuleRoot.
--   Schema/Mapper          its customMapper.
-- The children of a file hold its proofs; Webhook/Tests, Export/Tests and Harvester/Tests with their
-- children, Connect/Tests, Settings/Tests, Startup/Tests and Schema/Tests run the code on concrete
-- pods, processes, events, spans, settings and schemas.
--
-- How the code is modelled. A method that changes an object returns the changed record; a nil
-- pointer or an error is `none` or a value of an error type; calls to the API server and removals of
-- directories are returned as lists, in their order. A Go map is the list of its entries, in the
-- order of one iteration, so that a theorem about all lists is about every order. Loops are
-- structural recursion over the list that they walk. A walk over a schema has the depth of the schema
-- as the bound of its rounds: a round goes one schema inward, and no visitor nests them deeper. The
-- search for a module's root has the number of separators of the path and two, as a round takes one
-- away until the path is its own directory. A
-- schema is a tree: where the program shares one between two properties, after processInlineFields,
-- a change of the one is not seen at the other. Three more loops have a bound on their rounds: the
-- one that reads the arguments of a command line, the number of bytes that are left, of which each
-- round takes one or more; the one that trims the cache, the number of its entries, of which each
-- round removes one; and the one that prints a number, 20, the digits of a number below 2^64. A panic
-- of an index out of range is a result of its own. A harvest is modelled on the slot that the cache
-- has for one process id, which is all that it touches; Harvester/Collect puts it back into the cache.
-- A goroutine that selects between channels is a function
-- of the sequence of messages that it gets (spans and ticks for the collector, process events for the
-- survey). A section of the configuration that another project defines stands with what its methods
-- answer. What an exporter writes to a vector or an instrument is a list of updates, in their order,
-- with the values of a float64 kept as they are formed: sums, ticks, quotients and integers, over an
-- interface Floats.
-- Equality of pod specs (reflect.DeepEqual) is decided on the modelled fields.
--
-- What is assumed. The operations of other projects are fields of the records in Webhook/Deps, and
-- of Codec, System, KubeClient, Answers, SpanApi, IdGenerator, Tracker, GaugeVec, UpDownCounter, ResourceApi,
-- Lru, Floats and Selector: semver comparison, the export modes of a selector, image references, SHA-224,
-- JSON, the /proc file system, the API server, the tracker of process ids, metric vectors and
-- counters, the attributes of a resource, the LRU cache, float64 arithmetic, the attributes that are selected for a metric. Where
-- a theorem needs one to behave, it takes the behaviour as a hypothesis: that semver.Compare is a
-- total preorder (IsPreorder), that new export modes block every signal and each Allow lets one
-- through (IsBlocking), that the tracker answers with the last identity of a process and, while its
-- two maps agree, renames a service for all its processes and knows its last one (IsTracker), that a
-- vector of gauges and a counter tell their label and attribute sets apart (IsGaugeVec, IsCounter),
-- and that the LRU cache is a list of keys with the least recently used one at its end (IsLru). The
-- theorems on the survey counter speak of services of a class in which the attribute set tells the
-- identity (TellsApart): the environment of a service can override the attributes of its identity. The
-- two maps of the tracker stop to agree when a service is renamed to one that has processes, as it
-- then forgets those: the theorems that need them to agree leave such events out.
--
-- What is not modelled. Logging; the HTTP servers, the TLS files and the health check; the goroutines
-- that start the server, the informer and the exporters; reading /proc; fields of Kubernetes objects
-- that the webhook neither reads nor writes; floating point, so that CPU times are in ticks and
-- utilisations are quotients not yet computed; parseProcNetDev, whose sums are an answer of the
-- system; the expiry of metric series, the pool of reporters, and the creation of OpenTelemetry
-- instruments; the reflection of the schema generator on the program's types, and what main writes;
-- the filter of resource attributes; the exporter that the connection spans are handed
-- to, and their resource; the files and the environment that the configuration is read from. The rest
-- of Beyla (the conversion of its configuration, the nodes of discovery, the Alloy export, the wiring
-- of the pipelines) is outside this library.
pub mod Prelude
pub mod Int64
pub mod Webhook
pub mod Harvester
pub mod Connect
pub mod Export
pub mod Settings
pub mod Startup
pub mod Schema
