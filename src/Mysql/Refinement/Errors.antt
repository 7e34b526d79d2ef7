-- ===== src/Mysql/Refinement/Errors.antt =====
-- internal/fault/fault.go, `DB`: the numbers of MySQL and the codes of PostgreSQL meet in one error.
use golang_backend.Base.{◌≡◌, refl, nat_eq, string_eq}
use golang_backend.Fault
use golang_backend.Fault.{pg, mysql}
use golang_backend.Mysql.Errors.{duplicate_entry, no_referenced_row, row_is_referenced}

pub db-duplicate : Fault.db duplicate_entry ≡ Fault.db (pg "23505")
unfolding Fault.db string_eq nat_eq
db-duplicate = refl

pub db-no_referenced : Fault.db no_referenced_row ≡ Fault.db (pg "23503")
unfolding Fault.db string_eq nat_eq
db-no_referenced = refl

pub db-is_referenced : Fault.db row_is_referenced ≡ Fault.db (pg "23001")
unfolding Fault.db string_eq nat_eq
db-is_referenced = refl
