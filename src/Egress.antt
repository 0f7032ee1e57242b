-- ===== src/Egress.antt =====
-- The network gate of the skill sandbox: runner_api/src/sandbox/egress_proxy.py and
-- runner_api/src/sandbox/network_policy.py, from a skill's declared tools to the connections that its
-- process can open.
pub mod AllowList
pub mod Matching
pub mod Connect
pub mod Proxy
pub mod Audit
pub mod Domains
pub mod Extraction
