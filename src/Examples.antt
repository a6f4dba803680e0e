-- ===== src/Examples.antt =====
-- Runs of the models on concrete inputs, one for each theorem that has conditions or arguments.
mod Loops
mod Worlds
mod Copies
mod Services
mod Migrations
mod Servers
mod Programs
mod Threads
