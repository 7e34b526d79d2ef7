-- ===== src/Mysql/Refinement/Uuids.antt =====
-- internal/db/sqlc: a statement of PostgreSQL reads its uuids; beside one that is spelled as PostgreSQL
-- writes it, it is the statement on that text.
use golang_backend.Base.{String, ap, subst, sym, Option, none, some}
use golang_backend.Library.{Library}
use golang_backend.Database.Action.{Run, World, M}
use golang_backend.Database.Uuid.{with_key, by_uuid, by_some_uuid}
use golang_backend.Mysql.Simulation.{Implements, Same, calm}
use golang_backend.Mysql.Conditions.{Spelled, SomeSpelled}

module _ (lib : Library) {A : Type 0} {Pre : Run → World → Type 0} {m : Run → M A} where
  pub uuid-Implements :
      (p : Run → String → M A) (id : String)
      → Implements Pre m (λ run. p run id)
      → Implements (Spelled lib id Pre) m (λ run. by_uuid lib run (p run) id)
  unfolding with_key
  uuid-Implements p id done run w (spelled, pre) =
      let (same, calmly) = done run w pre in
      (
        subst (λ n. Same (m (calm run) w) (n w))
            (sym (ap (with_key (calm run) (p (calm run))) spelled)) same,
        calmly,
      )

  pub some_uuid-Implements :
      (p : Run → Option String → M A) (o : Option String)
      → Implements Pre m (λ run. p run o)
      → Implements (SomeSpelled lib o Pre) m (λ run. by_some_uuid lib run (p run) o)
  some_uuid-Implements p none done = done
  some_uuid-Implements p (some id) done = uuid-Implements (λ run key. p run (some key)) id done
