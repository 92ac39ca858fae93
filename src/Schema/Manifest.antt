-- ===== src/Schema/Manifest.antt =====
-- schema/manifest.py: what global_controller.yaml may carry, and the shape it is parsed into.
pub mod Parts
pub mod Agents
pub mod Sections
pub mod Providers
pub mod Otel
pub mod Load
pub mod Accepted
pub mod Served
pub mod Settings
use canyonos.Prelude.{ℕ, Bool, true, false, String, List, [], ◌∷◌, ◌++◌, Option, none, some, map}
use canyonos.Prelude.Int.{ℤ}
use canyonos.Float.{Float}
use canyonos.Schema.Functions.{FunctionDecl}

abbrev pub common_agent_keys : List String
common_agent_keys = "name" ∷ "type" ∷ "replicas" ∷ "resources" ∷ "stateful" ∷ "env" ∷ []

abbrev pub code_agent_keys : List String
code_agent_keys = common_agent_keys ++ "entrypoint" ∷ "requirements" ∷ "functions" ∷ []

abbrev pub database_keys : List String
database_keys = common_agent_keys ++ "image" ∷ "db_port" ∷ "volume_path" ∷ []

abbrev pub all_agent_keys : List String
all_agent_keys = code_agent_keys ++ database_keys

abbrev pub endpoint_keys : List String
endpoint_keys = "api_port" ∷ "agent" ∷ "method" ∷ []

abbrev pub redis_keys : List String
redis_keys = "host" ∷ "port" ∷ "db" ∷ []

abbrev pub resource_keys : List String
resource_keys = "cpu" ∷ "memory" ∷ "gpu" ∷ []

abbrev pub otel_keys : List String
otel_keys = "destinations" ∷ []

abbrev pub retired_keys : List String
retired_keys = "database" ∷ "ec2" ∷ "env_file" ∷ []

abbrev pub manifest_keys : List String
manifest_keys =
    "target" ∷ "provider" ∷ "agents" ∷ "poll_interval" ∷ "cleanup_interval" ∷ "project_id" ∷ "redis"
    ∷ "logs" ∷ "otel" ∷ "ssh_private_key_path" ∷ "ec2-pool" ∷ "ec2-assign" ∷ "endpoint"
    ∷ "dashboard_port" ∷ "kubernetes" ∷ []

abbrev pub endpoint_agent_name : String
endpoint_agent_name = "endpoint"

pub record Resources : Type 0 where
  pub cpu : Float
  pub memory : Float
  pub gpu : Option ℤ

pub record RedisSpec : Type 0 where
  pub host : String
  pub port : ℤ
  pub db : ℤ

pub record EndpointSpec : Type 0 where
  pub agent : Option String
  pub method : Option String
  pub api_port : Option ℤ

pub data AgentType : Type 0 where
  agent database : AgentType

-- The fields of a `CodeAgent`, without the lines of its requirements, and of a `DatabaseAgent`.
pub record CodeFields : Type 0 where
  pub entrypoint : String
  pub requirements : List String
  pub functions : List FunctionDecl

pub record DatabaseFields : Type 0 where
  pub image : String
  pub db_port : ℤ
  pub volume_path : Option String

pub data Kind : Type 0 where
  code_agent : CodeFields → Kind
  database_agent : DatabaseFields → Kind

-- What every agent has.
pub record Common : Type 0 where
  pub name : Option String
  pub replicas : ℤ
  pub resources : Resources
  pub stateful : Bool
  pub env : List (String × String)

pub record AgentSpec : Type 0 where
  pub name : String
  pub replicas : ℤ
  pub resources : Resources
  pub stateful : Bool
  pub env : List (String × String)
  pub kind : Kind

pub data Target : Type 0 where
  docker kubernetes : Target

pub record OtelDestination : Type 0 where
  pub name : String
  pub protocol : String
  pub endpoint : String
  pub headers : List (String × String)
  pub insecure : Bool
  pub timeout : Option Float

-- `K` is what the `kubernetes:` section is read into.
pub record Manifest (K : Type 0) : Type 0 where
  pub agents : List AgentSpec
  pub target : Target
  pub provider : String
  pub poll_interval : Float
  pub cleanup_interval : Float
  pub project_id : Option String
  pub redis : RedisSpec
  pub logs : Bool
  pub otel : Option (List OtelDestination)
  pub endpoint : Option EndpointSpec
  pub dashboard_port : ℤ
  pub kubernetes : K

-- The names of an agent's functions, where it is one of type `agent`.
abbrev pub methods : Kind → Option (List String)
methods (code_agent c) = some (map (λ f. f.name) c.functions)
methods (database_agent d) = none
