-- ===== src/Examples.antt =====
-- Each theorem at a concrete input, and runs of the definitions.
mod Bitmaps
mod Bsi
mod Clusters
mod Containers
mod Fields
mod Fragments
mod Runs
mod Topologies
mod Kinds
mod Iterators
mod Views
