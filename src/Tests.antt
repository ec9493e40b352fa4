-- ===== src/Tests.antt =====
-- Runs of the program on small inputs, and the theorems applied to them.
mod Fixture
mod OrderRuns
mod PageRuns
mod ProductRuns
mod ReviewRuns
mod UserRuns
mod CategoryRuns
mod FavoriteRuns
mod AuthRuns
mod ChatRuns
mod CryptoRuns
mod EventRuns
mod MongoRuns
