-- ===== src/Kubernetes.antt =====
-- backend/app/kubernetes: what guards the reads of a cluster.
pub mod ListLimit
pub mod CommandPolicy
mod Examples
