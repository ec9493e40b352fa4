-- ===== src/Prisma.antt =====
-- What the program relies on of @prisma/client, a package it does not contain (see `Delegate`), and
-- a concrete instance of it.
pub mod Delegate
pub mod Counting
pub mod Writing
pub mod Memory
