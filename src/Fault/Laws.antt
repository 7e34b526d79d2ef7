-- ===== src/Fault/Laws.antt =====
-- What the mapping of database errors guarantees to the HTTP layer.
use golang_backend.Base.{◌≡◌, refl, arith, nat_eq, string_eq}
use golang_backend.Fault.{Error, fault, caused, no_rows, mysql, pg, plain, db}

-- an error that apiError of httpapi/types.go finds a kind in
abbrev pub IsFault : Error → Type 0
IsFault (fault k m) = Unit
IsFault (caused k m cause) = Unit
IsFault _ = ⊥

-- `DB` always gives an error of the program's own.
pub db-IsFault : (e : Error) → IsFault (db e)
unfolding db
db-IsFault (fault k m) = tt
db-IsFault (caused k m cause) = tt
db-IsFault no_rows = tt
db-IsFault (mysql n) = ground arith
db-IsFault (pg code) = ground arith
db-IsFault (plain m) = tt

-- A second `DB`, as Mutate applies to what a service has mapped already, changes nothing.
pub db-db : (e : Error) → db (db e) ≡ db e
unfolding db
db-db (fault k m) = refl
db-db (caused k m cause) = refl
db-db no_rows = refl
db-db (mysql n) = ground arith
db-db (pg code) = ground arith
db-db (plain m) = refl
