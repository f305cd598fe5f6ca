-- ===== src/Filter.antt =====
-- src/cext/filter_utils: filters and options compiled once, and their run over a list of items.
pub mod Objects
pub mod Path
pub mod PathLaws
pub mod Ops
pub mod Alias
pub mod Compile
pub mod Eval
pub mod OpNames
pub mod OpsLaws
pub mod EvalLaws
pub mod DepthLaws
pub mod RunLaws
pub mod AliasLaws
mod OpExamples
mod Examples
pub mod Sample
mod AliasExamples
pub mod Order
pub mod Tagged
pub mod SortPairs
pub mod OrderLaws
pub mod OrderKeys
mod OrderExamples
pub mod Options
pub mod OptionsLaws
