-- ===== src/Grammar.antt =====
-- nodejs/utils/username_grammar.js: the SSH username grammar, `uid` or `uid_-_target`.
pub mod Defs
pub mod Ipv4
pub mod Parse
mod Examples
unfoldable pub use Defs.*
