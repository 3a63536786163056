-- ===== src/Tests.antt =====
-- Runs of the model on concrete inputs, and the theorems at inputs that meet their hypotheses.
mod Parameters
mod BreakerRuns
mod RetryRuns
mod HttpRuns
mod RegistryRuns
mod RateLimitRuns
mod ComponentRuns
mod LifecycleRuns
mod ResolverRuns
mod KeyRuns
mod ConfigRuns
mod MigrateRuns
mod ReloadRuns
mod ReadinessRuns
mod StreamRuns
mod RemoteRuns
mod ConsulRuns
mod EtcdRuns
mod LeaseRuns
mod JwtRuns
mod ForwardedRuns
