-- ===== src/Lib.antt =====
-- amneziawg-manager: a model of the program's core logic with its theorems.
--
-- awgctl manages an AmneziaWG server on one host: a service with its kernel interface and its
-- firewall, the obfuscation profile, and the clients. Its commands run under one mutation lock and
-- keep their progress in protected JSON documents, so that a process that dies is recovered by the
-- next one. All paths below are from the repository's root.
--
-- Value, Validate and Timestamp model what the strict readers of src/awgctl/core.py share: JSON
-- values, the regular expressions of names and digests, and the timestamps (`_transition_time`).
-- Result is a function that may raise `AwgctlError`; any other exception that the code can raise
-- there ends the caller too and is a raise of the model.
--
-- Service models the service lifecycle of src/awgctl/core.py:
--   Intent, Document   the durable operation intent and `normalize_service_operation_intent`
--   World              the state: the mutation lock as its depth and whether it is released, the
--                      service-operation file, and the host outside of it
--   Load, Store        `load_service_operation_intent`, its compare-and-swap and its deletion
--   Observe            `service_is_active_exact` and `kernel_interface_is_absent_exact`
--   Progress           the place of a hook in the expected actions of the operation
--   Firewall           `run_firewall_action_locked` (`hook_under` with an operation recorded,
--                      `hook_alone` without one)
--   Postcondition      `_service_intent_with` (`intent_with`) and the three postconditions
--   Lifecycle          `temporarily_release_mutation_lock` round systemctl, and
--                      `compensate_service_operation_locked`
--   Command            `reconcile_service_operation_locked` and `service_action`
-- A step is a function of the world to a result and the world after it, also where it raises
-- (Step.Exec). The write of the file ends in one of three ways, by what is written over what:
-- written, not written, or written and not synced. While the lock is released for systemctl, other processes act: that step is a
-- function of the host on the file and the outside, and the theorems on compensation, recovery and
-- `service_action` assume of it only that it keeps the recorded operation's identity
-- (Lifecycle/Steps.KeepsOperation).
--
-- Obfuscation models the profiles of src/awgctl/core.py: Range and Headers the inclusive ranges and
-- `validate_header_ranges`, Cps `validate_cps` with the tags of `_CPS_TAG`, Classic and Awg31 the
-- two profiles, Profile `_normalize_obfuscation`. Clients models the choice of an address (`next_client_address`), the
-- eligibility of a client and the expiry's choice of clients, and `bind_expiry_records`. An IPv4
-- address is its number.
--
-- Contracts models src/awgctl/contracts.py: Dict the updates of a `dict` and the comparisons of JSON
-- values, Texts `_optional_text` and `_optional_timestamp`, Metadata `normalize_client_metadata` with
-- the two functions that mark a new revision, Envelope the envelopes of the output.
--
-- Transition models the obfuscation transition of src/awgctl/core.py:
--   Document           `normalize_transition_document` and the document of a transition
--   Outcome            `normalize_transition_outcome` and the document of an outcome
--   Load, Store        the files, their reading, and `compare_and_swap_transition`
--   Cleanup            `begin_transition_outcome`, the steps of the cleanup, and
--                      `resume_transition_cleanup` (`from_checkpoint` to `from_complete`, one for
--                      each checkpoint that it resumes at)
-- Its state (Load.Disk) is the two documents, the roots of pending artifacts that exist, the metadata
-- of the clients by name, and the host outside, which says of each change of a file whether it is
-- written, not written, or written and not synced. The caller holds the mutation lock, so that no
-- other process changes these files.
--
-- Server models `normalize_server_config` of src/awgctl/core.py with `validate_endpoint` and
-- `validate_dns`; the module `ipaddress` is the parameter Server.Addresses.
--
-- Releases models src/awgctl/semver.py (Semver: `precedence_key`) and src/awgctl/releases.py
-- (Manifest: `parse_manifest`; Fetch: `discover_release_tag` and `fetch_verified_release`). The
-- network, OpenSSH, SHA-256 and the JSON decoder are the fields of Fetch.Remote.
--
-- Numbers are native and unbounded, as Python's are; a JSON number has a sign. The loop of
-- `validate_cps` runs on fuel, the length of the text, which is enough as each tag takes at least
-- one character (Obfuscation/Cps/Packet.Packet-scan). Every other loop of the modelled code is over
-- a list or over the hosts of a subnet.
--
-- Not modelled: systemd, the kernel, nft, the clock, the process table and the disk, which are
-- fields of World.Host and of Load.Host; `datetime.fromisoformat` and the dates of the expiry, which are parameters;
-- the acquisition of the mutation lock; the activation and rollback of a transition with its timers;
-- the rendering of configuration
-- and firewall files; the installer, backups and diagnostics, which are mostly calls of
-- other programs.
pub mod Prelude
pub mod Result
pub mod Value
pub mod Validate
pub mod Timestamp
pub mod Contracts
pub mod Step
pub mod Service
pub mod Transition
pub mod Releases
pub mod Server
pub mod Obfuscation
pub mod Clients
pub mod Tests
