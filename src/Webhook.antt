-- ===== src/Webhook.antt =====
-- pkg/webhook: the admission webhook that injects the OpenTelemetry SDK into pods.
pub mod Kube
pub mod Deps
pub mod Env
pub mod Config
pub mod Owners
pub mod Service
pub mod EnvVars
pub mod Process
pub mod Matcher
pub mod Mutator
pub mod Handler
pub mod Bouncer
pub mod Container
pub mod Scanner
pub mod Server
mod Tests
