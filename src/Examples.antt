-- ===== src/Examples.antt =====
-- The theorems on concrete inputs, and runs of the definitions.
mod Configs
mod Parsing
mod Requests
mod Files
mod RealFiles
mod Threads
mod Lifecycles
mod Connections
mod Deployment
mod Reports
mod Sessions
mod Palettes
