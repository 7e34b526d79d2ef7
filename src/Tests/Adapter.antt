-- ===== src/Tests/Adapter.antt =====
-- The statements of internal/db/mysql_adapter.go beside those of PostgreSQL.
use golang_backend.Base.{refl}
use golang_backend.Database.Postgres.{postgres}
use golang_backend.Mysql.Adapter.{mysql_queries}
use golang_backend.Mysql.Refinement.{mysql_queries-Refines}
use golang_backend.Database.Users.{CreateUserParams}
use golang_backend.Mysql.Simulation.{Same, calm}
use golang_backend.Tests.Fixtures.{lib, run_at, world}

abbrev new_user : CreateUserParams
new_user = record { email = "cy@x.org"; password = "hash"; role_id = "user" }

-- the condition on a new user holds of this one
creates_alike :
    Same
      ((mysql_queries lib (calm (run_at 5))).create_user new_user world)
      ((postgres lib (calm (run_at 5))).create_user new_user world)
unfolding golang_backend.Base.nat_eq golang_backend.Base.string_eq
creates_alike =
    ((mysql_queries-Refines lib λ search email. refl).users.create_user new_user (run_at 5) world
      (refl, (refl, refl))).0
