-- ===== src/Limits.antt =====
-- src/resource_limits.rs
use takeln.Base.{ℕ, ◌*◌}

pub record ResourceLimits : Type 0 where
  pub max_concurrent_nodes : ℕ
  pub max_execution_records : ℕ
  pub max_checkpoint_bytes : ℕ
  pub max_dag_nodes : ℕ
  pub max_sequential_steps : ℕ

-- `ResourceLimits::default`
abbrev pub default_limits : ResourceLimits
default_limits = record {
  max_concurrent_nodes = 64;
  max_execution_records = 10_000;
  max_checkpoint_bytes = 10 * 1024 * 1024;
  max_dag_nodes = 10_000;
  max_sequential_steps = 1_000;
}

unfoldable pub with_max_concurrent_nodes : ResourceLimits → ℕ → ResourceLimits
with_max_concurrent_nodes l n = record l { max_concurrent_nodes = n }

unfoldable pub with_max_execution_records : ResourceLimits → ℕ → ResourceLimits
with_max_execution_records l n = record l { max_execution_records = n }

unfoldable pub with_max_checkpoint_bytes : ResourceLimits → ℕ → ResourceLimits
with_max_checkpoint_bytes l n = record l { max_checkpoint_bytes = n }

unfoldable pub with_max_dag_nodes : ResourceLimits → ℕ → ResourceLimits
with_max_dag_nodes l n = record l { max_dag_nodes = n }

unfoldable pub with_max_sequential_steps : ResourceLimits → ℕ → ResourceLimits
with_max_sequential_steps l n = record l { max_sequential_steps = n }
