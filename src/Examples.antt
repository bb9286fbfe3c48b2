-- ===== src/Examples.antt =====
-- Concrete inputs: the parameters instantiated by functions that run, tests, and each property at an
-- input that meets its hypotheses.
mod Setup
mod Constraints
mod Validation
mod Patches
mod Evaluation
mod Policies
mod Operations
mod OrderBy
mod Database
mod Lists
mod Server
mod Processes
mod Clients
mod Paging
