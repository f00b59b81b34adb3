-- ===== src/Store.antt =====
-- control_plane/store/types.go and keys.go: the stored entities and the keys of their maps.
-- Times are nanoseconds, 0 the zero time. The texts of hosts, versions and trace identifiers that
-- no modelled code reads (Hostname, Version, Metadata of an agent, TraceID of a job) are left out.
pub mod Memory
pub mod Keys
use flux_forge.Base.{ℕ, String, Option}
use flux_forge.Base.Text.{◌<>◌}

pub record Agent : Type 0 where
  pub node_id : String
  pub tenant_id : String
  pub ip_address : String
  pub status : String
  pub last_heartbeat : ℕ
  pub created_at : ℕ
  pub updated_at : ℕ
  pub port : ℕ
  pub tier : String

pub record Job : Type 0 where
  pub job_id : String
  pub node_id : String
  pub tenant_id : String
  pub state_id : String
  pub command : String
  pub status : String
  pub exit_code : ℕ
  pub stdout : String
  pub stderr : String
  pub created_at : ℕ
  pub started_at : Option ℕ
  pub finished_at : Option ℕ

pub record DesiredState : Type 0 where
  pub state_id : String
  pub node_id : String
  pub tenant_id : String
  pub check_cmd : String
  pub apply_cmd : String
  pub desired_exit_code : ℕ
  pub created_at : ℕ
  pub updated_at : ℕ
  pub version : ℕ
  pub status : String
  pub last_checked : ℕ
  pub last_error : String

pub data Resource : Type 0 where
  agents jobs states : Resource

unfoldable pub resource_string : Resource → String
resource_string agents = "agents"
resource_string jobs = "jobs"
resource_string states = "states"

unfoldable pub tenant_prefix : String → Resource → String
unfolding resource_string
tenant_prefix tenant_id resource =
    "fluxforge:tenants:" <> tenant_id <> ":" <> resource_string resource <> ":"

unfoldable pub tenant_key : String → Resource → String → String
unfolding resource_string
tenant_key tenant_id resource id =
    "fluxforge:tenants:" <> tenant_id <> ":" <> resource_string resource <> ":" <> id

unfoldable pub tenant_wildcard_prefix : Resource → String
unfolding resource_string
tenant_wildcard_prefix resource = "fluxforge:tenants:*:" <> resource_string resource <> ":*"
