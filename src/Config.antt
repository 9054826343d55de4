-- ===== src/Config.antt =====
-- core/config/manager.go: the configuration, where its values come from, and its check. The process
-- environment, the files, the YAML and JSON decoders, `strings`' and `strconv`'s functions on any
-- text, `%q` and the regular expression of a secret are parameters. A `float64` is its bits.
mod Defs
mod Overrides
mod Check
mod Load
pub mod Validity
pub mod Sources
unfoldable pub use Defs.*
unfoldable pub use Overrides.*
unfoldable pub use Check.*
unfoldable pub use Load.*
