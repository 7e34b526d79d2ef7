-- ===== src/Mysql/Errors.antt =====
-- The numbers of the errors that a statement of MySQL stops at: see internal/fault/fault.go, `DB`.
use golang_backend.Base.{ℕ, String, Bool, ltb, rune_count}
use golang_backend.Fault.{Error, mysql}

-- ER_DUP_ENTRY, ER_NO_REFERENCED_ROW_2, ER_ROW_IS_REFERENCED_2
abbrev pub duplicate_entry : Error
duplicate_entry = mysql 1062

abbrev pub no_referenced_row : Error
no_referenced_row = mysql 1452

abbrev pub row_is_referenced : Error
row_is_referenced = mysql 1451

-- ER_DATA_TOO_LONG: more characters than the column's `varchar` holds
abbrev pub data_too_long : Error
data_too_long = mysql 1406

-- ER_CHECK_CONSTRAINT_VIOLATED
abbrev pub check_violated : Error
check_violated = mysql 3819

abbrev pub too_long : ℕ → String → Bool
too_long width text = ltb width (rune_count text)
