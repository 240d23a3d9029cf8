-- ===== src/Config.antt =====
-- `NginxConfig`, `NginxConfigStatement` and their parser: include/config_parser.h and
-- src/config_parser.cc. Types has the tree, Token the tokenizer, Parser the two `Parse` methods.
pub mod Types
pub mod Token
pub mod Printable
pub mod Parser
pub mod Printer
pub mod Reading
pub mod RoundTrip
pub mod Port
pub mod Locations
pub mod File
pub mod Executable
pub mod Defects
pub mod Comments
