-- ===== src/Examples.antt =====
-- Concrete inputs: runs of the model, and the theorems applied where their hypotheses hold.
mod Numbers
mod Lexing
mod Parsing
mod Composing
mod Coverting
mod Rendering
mod Sending
mod Storing
mod Querying
