-- ===== src/Schema/Tests.antt =====
-- A manifest with an agent and a database, and what the checks make of it and of a bad one.
use canyonos.Prelude.{◌≡◌, refl, true, false, String, List, [], ◌∷◌, none, some}
use canyonos.Prelude.Int.{pos}
use canyonos.Float.{finite}
use canyonos.Value.{cons, nil, int, str, list, dict, Fields, field, end}
use canyonos.Schema.{Host, Checked, pure, ◌>>=◌}
use canyonos.Schema.Env.{expand, has_reference, pieces_from}
use canyonos.Schema.Env.Written.{expand_unset}
use canyonos.Schema.Checks.{
  check_keys, mapping, mapping_value, integer, port, boolean, resolve, number, string, string_value,
  string_list, string_list_value, string_mapping, string_mapping_value,
}
use canyonos.Schema.Functions.{
  annotation, identifier, returns, argument, arguments, arguments_from, unless_taken, function,
  functions, functions_from, function_name,
}
use canyonos.Schema.Manifest.{Manifest, Resources, code_agent, database_agent, docker, AgentSpec}
use canyonos.Schema.Manifest.Agents.{
  agents, agents_from, agent_entry, agent_type, check_agent_keys, common, kind, check_names,
}
use canyonos.Schema.Manifest.Parts.{
  resources, requirements, project_relative_py, relative_py, is_rooted,
}
use canyonos.Schema.Manifest.Sections.{
  endpoint, check_endpoint, check_method, redis, target, target_value, provider, chosen_provider,
}
use canyonos.Schema.Manifest.Providers.{check_provider_sections, check_section, check_retired}
use canyonos.Schema.Manifest.Otel.{otel, otel_block}
use canyonos.Schema.Manifest.Load.{loaded, check_document, check_key_path, load_manifest}
use canyonos.Schema.Manifest.Accepted.{AgentsFit, load_manifest-AgentsFit}
use canyonos.Schema.Manifest.Served.{IsServed, load_manifest-IsServed}
use canyonos.Schema.Manifest.Settings.{AreSettled, KeysFit, TargetFits, load_manifest-AreSettled}

abbrev test_host : Host
test_host = record {
  env = λ n. none;
  strip = λ s. s;
  lower = λ s. s;
  casefold = λ s. s;
  identifier = λ s. true;
  to_float = λ z. some (finite z 0);
  int_text = λ z. "1";
  float_text = λ x. "1";
  drive_rooted = λ s. false;
  requirement = λ s. true;
  builtin_annotation = λ s. true;
}

abbrev no_kubernetes_reader : Fields → Checked (Unit {0})
no_kubernetes_reader fs = pure tt

abbrev hello_function : Fields
hello_function =
    field "name" (str "greet")
      (field "arguments" (list (cons (dict (field "name" (str "who") end)) nil)) end)

abbrev hello_agent : Fields
hello_agent = field "name" (str "Hello") (
    field "entrypoint" (str "agents/hello.py") (
      field "replicas" (int (pos 2))
        (field "functions" (list (cons (dict hello_function) nil)) end)))

abbrev database_entry : Fields
database_entry =
    field "name" (str "Store") (field "type" (str "database") (field "image" (str "postgres") end))

abbrev endpoint_section : Fields
endpoint_section = field "agent" (str "Hello") (field "method" (str "greet") end)

abbrev sample : Fields
sample =
    field "agents" (list (cons (dict hello_agent) (cons (dict database_entry) nil)))
      (field "endpoint" (dict endpoint_section) end)

abbrev no_env : List (String × String)
no_env = []

abbrev sample_resources : Resources
sample_resources = record { cpu = finite (pos 1) 0; memory = finite (pos 512) 0; gpu = none }

abbrev sample_agents : List AgentSpec
sample_agents =
    record {
      name = "Hello";
      replicas = pos 2;
      resources = sample_resources;
      stateful = false;
      env = [];
      kind = code_agent (record {
        entrypoint = "agents/hello.py";
        requirements = [];
        functions =
            record {
              name = "greet";
              arguments = record { name = "who"; type = none } ∷ [];
              returns = none;
            }
            ∷ [];
      });
    }
    ∷ record {
      name = "Store";
      replicas = pos 1;
      resources = sample_resources;
      stateful = false;
      env = [];
      kind = database_agent (record { image = "postgres"; db_port = pos 5432; volume_path = none });
    }
    ∷ []

abbrev sample_manifest : Manifest (Unit {0})
sample_manifest = record {
  agents = sample_agents;
  target = docker;
  provider = "local";
  poll_interval = finite (pos 5) 0;
  cleanup_interval = finite (pos 10) 0;
  project_id = none;
  redis = record { host = "localhost"; port = pos 6379; db = pos 0 };
  logs = true;
  otel = none;
  endpoint = some (record { agent = some "Hello"; method = some "greet"; api_port = none });
  dashboard_port = pos 8081;
  kubernetes = tt;
}

sample-loaded : load_manifest test_host no_kubernetes_reader (dict sample) ≡ loaded sample_manifest
unfolding load_manifest check_document check_key_path ◌>>=◌ agents agents_from agent_entry
    agent_type check_agent_keys common kind resources requirements check_names functions
    functions_from function function_name arguments arguments_from argument identifier returns
    annotation unless_taken string string_list string_mapping string_value string_list_value
    string_mapping_value mapping mapping_value check_keys integer boolean number port resolve expand
    pieces_from has_reference endpoint check_endpoint check_method redis target target_value
    provider chosen_provider otel otel_block check_provider_sections check_section check_retired
    project_relative_py relative_py is_rooted
sample-loaded = refl

load_manifest-AgentsFit_example : AgentsFit test_host no_kubernetes_reader sample_agents
load_manifest-AgentsFit_example =
    load_manifest-AgentsFit test_host no_kubernetes_reader (dict sample) sample-loaded

load_manifest-IsServed_example : IsServed sample_agents sample_manifest.endpoint
load_manifest-IsServed_example =
    load_manifest-IsServed test_host no_kubernetes_reader (dict sample) sample-loaded

load_manifest-AreSettled_example :
    AreSettled test_host sample_manifest
    × KeysFit test_host sample
    × TargetFits test_host sample_manifest sample
load_manifest-AreSettled_example =
    load_manifest-AreSettled test_host no_kubernetes_reader sample sample-loaded

expand_unset_example :
    (expand (λ n. none) "${A}b" ≡ "${A}b")
    × (has_reference "${A}b" ≡ false → expand (λ n. some "x") "${A}b" ≡ "${A}b")
expand_unset_example = expand_unset (λ n. some "x") "${A}b"
