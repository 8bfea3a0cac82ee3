-- ===== src/Lib.antt =====
-- The provisioning program of the RKE2 lab, infra/pulumi/__main__.py with the Python modules under
-- infra/pulumi/modules, and the helpers that check its cluster, under verify.
--
-- The program registers the lab's network, images and VMs with Pulumi. It places the VMs on Proxmox
-- nodes, clears storage volumes that earlier runs left behind, and, when the resources exist,
-- reloads the network and installs its static bridge entries. Each part talks to the same Proxmox
-- API, through its own copy of a small client, and keeps little state: the placement record is a
-- JSON file, and all else is read anew at each run.
--
-- Files:
-- - Base and its children: the library names that are passed on, and what Python's int, dict,
--   sorted and str need. A dict is an association list in insertion order; an integer is a natural
--   number where it cannot be negative, and otherwise the data type of Base/Int, without a bound as
--   in Python.
-- - Py/Value, Py/Text, Py/Result: decoded JSON, the `str` methods on ASCII text, and results that
--   may be an exception.
-- - Py/Effect: statements with effects. `Env` stands for everything outside: HTTP replies, SSH
--   sessions, files, the clock, and the functions of the standard library that only make texts.
--   Each answer may depend on the whole history of events, so a theorem for every `Env` holds for
--   every behaviour of the servers and hosts. What was done before an exception stays in the
--   history. Py/Effect/Rules has one rule for each way to build an effect, and Py/Effect/Returns
--   reads off what the parts of an effect returned. Py/Effect/Ends is about the value that was
--   returned and the history together.
-- - Resources: the arguments of the Pulumi resources. Registering one is an event of the history.
-- - Pve: `_request`, which placement.py, pve_cleanup.py and sdn.py share word for word, and how its
--   callers read a reply.
-- - Placement: placement.py. Placement/Plan is `_plan`, Placement/Client is `_PveUsageClient`, and
--   Placement/Planner is `PlacementRecord` and `plan_placement`. Placement/Plan/Board is an
--   abstract view of the planner, without its dicts, counters and order, that
--   Placement/Plan/Refines relates to it.
-- - Cleanup: pve_cleanup.py. Cleanup/Settings and Cleanup/Client are `CleanupSettings` and
--   `PveClient`, Cleanup/Mac its regular expression, Cleanup/Orphans `find_orphans`, Cleanup/Remove
--   `_remove_volume_via_ssh`, and Cleanup/Run `clean_orphans` and `run_standalone`.
-- - Fdb: sdn_fdb.py. Fdb/Settings is `SdnFdbSettings`, Fdb/Ssh `_host_ssh`, Fdb/Lines
--   `_fdb_lines_for`, Fdb/Discover `_discover_sdn_macs`, Fdb/Install `_hook_script` and
--   `_install_node`, and Fdb/Run `ensure_sdn_fdb` and `run_standalone`.
-- - Sdn: sdn.py. `await_task` is the loop of `_apply_once`, and `apply_sdn` the function of that
--   name. Sdn/Poll, Sdn/Wait and Sdn/Effects are about what ends the loop, that it ends, and its
--   requests.
-- - Vm: vm_factory.py and vm_definitions.py. Vm/Factory is `create_vm` and the arguments it builds,
--   and Vm/Definitions the table of VMs.
-- - Main: __main__.py. Main/Config is the reading of the configuration, with `pulumi.Config` as a
--   record of its getters; Main/Selection chooses the VMs and finds their NICs; Main/Register has
--   the resources that come before the VMs, with those of provider.py and sdn.py; Main/Run is the
--   program behind these, in its order. `Engine` is what Pulumi gives to the program, and
--   `post_create_sdn` the callback that runs when the resources exist. Main/Preview, Main/Placed,
--   Main/Created and Main/Fits are about whole runs, and use the theorems of the other parts.
-- - Verify: verify/helpers.py, verify/conftest.py, verify/test_cluster.py and
--   verify/test_openbao.py, which check a running cluster. Verify/Session has the requests to
--   Keycloak and OpenBao, Verify/Kv `bao_kv_keys_present`, Verify/Browser the forms of a login
--   page, Verify/Login `keycloak_login`, Verify/Proxy the flows through the proxies of Hubble and
--   Traefik, Verify/Kubectl the runs of kubectl, Verify/Tokens the exchange of a code and the
--   claims of a token, Verify/Grafana and Verify/Gitlab their single sign-on, Verify/Cluster the
--   checks of test_cluster.py with what they read in Verify/Conditions, Verify/Vault the checks of
--   test_openbao.py, Verify/Ipa the FreeIPA admin channel and the users of a run, and
--   Verify/Fixtures the fixtures, each with what a test does between its setup and its teardown as
--   an argument. A session of `requests` answers by the whole history of events, which stands for
--   its cookies.
-- - Fake: a small cluster that answers, for the tests.
--
-- Bounds: the poll of a storage task has the 60 rounds of the source. The loop of the reload has a
-- deadline and no bound; its model counts 61 rounds, which are enough, since each of them sleeps
-- five seconds of the 300, on a clock that does not run backwards. The clock counts whole seconds.
-- The digits of a number are shown with the number itself as fuel, which is more than its digits.
--
-- Not modelled: the other tests under verify, which are assertions on a live cluster; the Pulumi
-- engine, and the options of a resource (its provider, its dependencies and aliases); TLS settings;
-- numbers with a fraction in JSON, which no field that is read has; the text of an OSError inside a
-- message; and text outside ASCII.
mod Base
pub mod Py
pub mod Pve
pub mod Placement
pub mod Cleanup
pub mod Fdb
pub mod Sdn
pub mod Resources
pub mod Vm
pub mod Main
pub mod Verify
mod Fake
