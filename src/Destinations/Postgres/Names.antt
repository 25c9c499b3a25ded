-- ===== src/Destinations/Postgres/Names.antt =====
-- The lengths of the names that the Postgres client makes.
use cloudquery_fork4devin.Destinations.Postgres.{Postgres}
