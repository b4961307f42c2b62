-- ===== src/Examples.antt =====
-- Concrete inputs on which the results of the other modules are run.
mod Session
mod Forms
mod Shards
mod Tables
mod Texts
mod Numbers
mod Drains
mod Pages
mod Contracts
mod Runner
mod Bars
mod Nodes
