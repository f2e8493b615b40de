-- ===== src/Rules.antt =====
-- internal/rules: the typed rule definitions, their validation, and the evaluation of their
-- predicates. The children hold the data, the validation, the evaluation, and what is proved.
pub mod Types
pub mod Catalog
pub mod Duration
pub mod Evaluate
pub mod Validate
pub mod Definition
pub mod Compile
pub mod Wire
pub mod Conjunction
pub mod Size
pub mod Soundness
pub mod Targets
pub mod Examples
