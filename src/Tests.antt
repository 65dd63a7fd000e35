-- ===== src/Tests.antt =====
-- Runs of the definitions on concrete inputs, one for each theorem that has hypotheses or variables.
pub mod Data
mod Wire
mod Connection
mod Requests
mod Tcp
mod Exchange
