-- ===== src/Lib.antt =====
-- CanyonOS runs agents as replicas in containers on a pool of machines. This library models the
-- decision logic of its control plane, packages/core/canyonos_core, and proves what makes each
-- decision correct. The controller polls every replica, records load samples and lets the scaling
-- policy change each agent's desired replica count; the reconciler drains what is surplus, unhealthy
-- or to be replaced and places new replicas on machines; governance decides which calls between
-- agents are refused.
--
-- Which file models what, with paths under packages/core/canyonos_core:
-- - Scaling: controller/scaling.py (`policy_error`, `_decide`, `scale`) on the samples of
--   scaling/contract.py. `policy_of` is the policy with its counts converted by `int`, `decide`
--   is `_decide` without the reason for the log, `scale` takes the policy document and the reader
--   of an agent's samples. Children: Valid, Bounds, Load, Decisions, Tests.
-- - Governance: controller/governance.py. The root has the decisions on a snapshot
--   (`_policy_allows`, `_tripped`, `refuse_call`, `model_for`) and the sort of the policy rules of
--   controller/global_controller.py; Parse has `parse`, with the refused path as a `Fault`;
--   Snapshot has `seed`, `_spend`, `_agents` and `load`.
-- - Replicas: `remove_replica`, `_drain` and `_is_idle` of reconciler/replica_provisioner.py on the
--   replica records; `remove_over` is the sequence of passes over one replica.
-- - Reconciler: `_is_healthy`, `_removal_reason`, `_drain_replica` and `_remove_unwanted` of
--   reconciler/reconciler.py. `World` is the state of a pass, `Look` what it observes of a replica,
--   `visit` one round of the loop. Uses Replicas.
-- - Launch: the loop over port conflicts of `launch` in reconciler/replicas.py, on the 50 attempts
--   of MAX_PORT_ATTEMPTS. `after_attempt` is what one answer of Docker leads to.
-- - Placement: reconciler/placement.py. Machines are known by their index, since the code changes
--   the chosen one in place.
-- - Machines: what `_declared` yields for a machine spec, `find_surplus`, `find_dead`, `terminate` and `machines_for_replicas` of
--   reconciler/machine_provisioner.py on the machine records, and `reap`, the first step of
--   `_reconcile`.
-- - Routing: the addresses that `publish_routing_snapshot` of reconciler/routing.py writes for an
--   agent, and `publish_up_agents`, whose states before, between and after its writes are listed. A
--   set of Redis is an interface, `RedisSet`, with what its operations do to membership. Uses
--   Replicas.
-- - Desired: `get_desired`, `set_desired` and `desired_agent_specs` of reconciler/state.py, over an
--   interface of Redis keys, `RedisKeys`.
-- - Ports: `find_free_port` of controller/utils/port_utils.py and `_claim_host_port` of
--   reconciler/replica_provisioner.py, over one loop, `first_port`.
-- - Schema: the check of global_controller.yaml. The root has the collector of violations, as the
--   list that each reader adds; Env expands `${VAR}` (controller/utils/config_env.py), Checks has the
--   field readers of schema/_checks.py, Functions is schema/functions.py, and Manifest with its
--   children is schema/manifest.py: Parts, Agents, Sections (the endpoint, Redis, the target and the
--   provider), Otel (with schema/otel_destinations.py), Providers (with the keys that the `_schema`
--   modules of reconciler/providers declare) and Load. Clean and Readers have the lemmas on readers.
-- - Gateway: llm_gateway. Models is llms.py, Pricing is pricing.py, Routes is routing.py. The
--   arithmetic of floats raises nothing there: an integer too large for a float is not modelled.
-- - Calls: controller/local_controller.py. Addresses is `_load_routing` and `_resolve_address`,
--   Forwards the calls that are sent on, as a step relation on the queue, the calls under way and the
--   timers, and Waits is `wait_for_result` of controller/future.py. Execute is `Execute` of
--   controller/local_controller_frontend.py with `_admit`; its queue is every request that was put
--   there. Uses Governance.
-- - Float and Value: Python's numbers and the values of JSON and YAML documents. A float is an
--   exact dyadic fraction, an infinity or NaN; comparisons are exact, so no rounding is modelled
--   there.
-- - Prelude: shared tests, lists, dictionaries as association lists, and integers.
--
-- Redis, Docker, the network, the clock, the JSON and date-time readers, and the addition and
-- division of floats are arguments of the definitions that use them. Times are whole microseconds.
-- A record of Redis is a record with the fields that the code reads; the records stand in the order
-- in which the code lists them. `_claim_host_port` runs on fuel, one attempt more than there are
-- ports in use, and always finds a port within it. The rounds of `wait_for_result` run on fuel: it is
-- enough up to the first round that finds the future settled or ends after the deadline. A place in a
-- document is a list of keys and indices, a violation its place and its kind; keys of mappings are
-- text. Python's functions on text that depend on Unicode, `float`, the parsers of requirements and
-- annotations, and the reader of the `kubernetes:` section are arguments there.
--
-- Not modelled: exceptions of Redis and Docker inside a pass, which the code logs and retries; the
-- commands that launch replicas, the derivation of the machine specs from the config, and the start of
-- machines; the removal of stale agents from the
-- routing tables; the wake queue and the flags in Redis; the reading of files, with the lines and the
-- wording of the messages; the `kubernetes:` section; the proxy of the LLM gateway; the execution of
-- calls, the callbacks with their results and the shutdown of the local controller; telemetry; the
-- packages in other languages.
pub mod Prelude
pub mod Float
pub mod Value
pub mod Calls
pub mod Desired
pub mod Gateway
pub mod Governance
pub mod Launch
pub mod Machines
pub mod Placement
pub mod Ports
pub mod Reconciler
pub mod Replicas
pub mod Routing
pub mod Scaling
pub mod Schema
