-- ===== src/Tests.antt =====
-- Runs of the models and instances of the theorems, part by part.
mod Sorting
mod Memory
mod Queues
mod Trees
mod Networks
mod Stores
mod Circuits
mod Arrays
mod Stacks
mod Heaps
mod Vectors
mod Maps
