-- ===== src/Cli.antt =====
-- endpoint/cli.py: the arguments of the command line, and the configuration that it writes for a server.
pub mod Arguments
pub mod Config
