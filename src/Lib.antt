-- ===== src/Lib.antt =====
-- dilu-go-kit: a kit for Go services, with the parts that hold state or decide something modelled
-- over explicit states. The packages and the files that model them:
--
--   resp, apperr, clientx/grpc.go    Errors is Go's error values with errors.Is and errors.As; Resp and
--                                    Resp/Codes the envelope and the codes of resp/; Apperr is
--                                    apperr/error.go; Clientx/Grpc is clientx/grpc.go. Status is a
--                                    parameter: google.golang.org/grpc/status, with the laws the kit
--                                    relies on. Clientx/Transport follows an error from a server's
--                                    GRPCStatus to a client's MapGRPCError.
--   clientx/breaker.go               Clientx/Breaker: currentStateLocked is `current`, before and after
--                                    keep their names, Do is `do_call`. Breaker/Machine interleaves the
--                                    calls of many goroutines, panics included; Breaker/Invariant,
--                                    Breaker/Calls and Breaker/Stuck are about it.
--   clientx/client.go                Clientx/Retry: Do is `run_retry`, normalizeRetryConfig `normalize`.
--                                    float64 is the parameter of Base/Float.
--   clientx/http.go                  Clientx/Http: NewHTTPClient, and Do as `do_request`, with the breaker
--                                    and the retry loop of the two files above. Clientx/Http/Requests
--                                    is about it; Clientx/Http/Body has limitedResponseBody. What
--                                    net/http answers is an input.
--   registry/registry.go             Registry (services and their normal form), Registry/Services,
--                                    Registry/Filter (the filters), Registry/Upstream (the loop of
--                                    WatchUpstreamsWithOptions: `publish` is one round of it) and
--                                    Registry/Upstream/Fallback.
--                                    Registry/Keys: validateService, serviceKey and what reads it;
--                                    Registry/Keys/RoundTrip; Registry/Keys/Backends: RegisterBackend,
--                                    New and the defaults of Config. net.SplitHostPort and
--                                    strconv.Atoi are parameters.
--   mid/ratelimit.go                 Mid/RateLimit: Middleware is `handle`, cleanupExpired `cleanup`;
--                                    Mid/RateLimit/Window and Mid/RateLimit/Capacity are about it.
--   mid/grpc_policy.go               Mid/Concurrency: the concurrency limiter; Unary and Stream are
--                                    `acquire` and `release`.
--   registry/resolver.go             Registry/Resolver: Resolve, and Registry/Resolver/Rotation.
--   metadata/metadata.go             Metadata and Metadata/Headers; strconv.FormatInt is a parameter.
--                                    Metadata/Identity is about the header of InjectIdentityHTTP.
--   store/opts.go                    Store.
--   boot/config.go                   Boot/Config has the fields and, as a parameter, the functions of
--                                    Go's library; Boot/Config/Checks is Validate and
--                                    validateTLSRequirements, of a configuration that is not nil;
--                                    Boot/Config/Accepted is about what they let through.
--                                    Boot/Config/Environment is applyEnvOverrides.
--   boot/app.go                      Boot/Lifecycle: AddComponent, AddReadinessCheck, startComponents,
--                                    stopComponents; what Start and Stop do is a parameter.
--                                    Boot/Lifecycle/Shutdown is about their order. Boot/Reload: the
--                                    callback of watchRemoteConfig as `reload`; Reload/Publishing and
--                                    Reload/History are about it. Boot/Readiness: readinessOK;
--                                    Readiness/Results and Readiness/Evidence are about it.
--   boot/remote.go                   Boot/Remote (keys and checks), Boot/Remote/Settings (`walk` is the
--                                    closure of sensitiveRemotePath), Boot/Remote/Layers (loading and
--                                    merging from a store; viper and REMOTE_NODE are parameters),
--                                    Boot/Remote/Sessions (mergeRemoteConfig, which opens stores);
--                                    Settings/Search and Layers/Merging are about them.
--   boot/components.go               Boot/Components: orderComponents, with `visit` for the recursive
--                                    closure; Boot/Components/Ordering, Sound and Fuel are about it.
--   contrib/mid/jwt/jwt.go           Jwt (requests, claims and what the library does), Jwt/Claims,
--                                    Jwt/Handler: JWT is `handle`; Jwt/Access, Jwt/Sources, Jwt/Grounds,
--                                    Jwt/Authentication and Jwt/Identity are about it. jwt.Parse is a
--                                    parameter. Jwt/Numerals and
--                                    Jwt/Forwarded join it to metadata/metadata.go: what one service
--                                    sends is what the next one reads.
--   contrib/registry/consul/         Consul (what is read from an entry), Consul/Fields, Consul/Watch (the
--                                    events of Watch) with Consul/Watch/View, and Consul/Registration
--                                    with Consul/Registration/RoundTrip. The functions of Go's library
--                                    are a parameter, and replies of Consul are inputs.
--   contrib/registry/etcd/           Etcd: what is read of keys and values; Etcd/Watch: Watch, with
--                                    Etcd/Store, Watch/Changes, Watch/Deletions and Watch/View.
--                                    Etcd/Leases: Register, keepAliveLoop, Deregister and Close as
--                                    threads that take turns (`advance` is one turn); Leases/Steps,
--                                    Leases/Loops and Leases/Closing are about the loops, and
--                                    Leases/Races about Register. Registry/Events has the events of
--                                    both registries.
--   contrib/migrate/postgres/        Migrate: nextMigrationVersion as turns of goroutines; Migrate/Order and
--                                    Migrate/Progress are about it.
--   contrib/stream/redis/            Stream/Consumer: runConsumerLoop as `run_loop`, one round as `turn`;
--                                    Stream/Consumer/Outage and Stream/Consumer/Backoff are about it.
--                                    Stream/Group: the configuration; Stream/Poll: the function that
--                                    RunGroupConsumer hands to the loop, and RunGroupConsumer;
--                                    Stream/Messages: EnsureGroup, ReadGroup, ClaimStale;
--                                    Stream/DeadLetters: Publish, Ack and the dead letters. The Redis
--                                    client and json.Marshal are parameters.
--
-- They meet in few places: clientx sees apperr's errors through the status package, mid answers with
-- resp, boot sorts what the application registers and starts it in that order, and the loop
-- of Stream/Consumer runs the polls of Stream/Poll, which call Stream/Messages. Boot/Reload joins the
-- layers of Boot/Remote, the environment and the checks of Boot/Config. Base has the numbers,
-- texts and maps they share; Tests has runs on concrete inputs.
--
-- Conventions. A text is a list of code points. A Go map is an association list, nil an Option or a
-- constructor. Time is a number of nanoseconds, passed in; a method under a mutex is one step. uint64
-- and uint32 wrap where the code lets them; an int that counts (failures, requests) is not bounded,
-- which needs 2^63 steps to matter. Fuel occurs once, in `visit`: one level more than there are
-- components, of which it is proved that it is never used up.
--
-- Not modelled: gin, gRPC, gorm, Redis, Consul and etcd themselves, logging, metrics and telemetry, which the kit
-- calls; channels, timers and contexts beyond the events they cause.
mod Base
pub mod Errors
pub mod Resp
pub mod Status
pub mod Apperr
pub mod Clientx
pub mod Registry
pub mod Mid
pub mod Boot
pub mod Store
pub mod Metadata
pub mod Migrate
pub mod Stream
pub mod Jwt
pub mod Consul
pub mod Etcd
mod Tests
