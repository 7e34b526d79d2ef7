-- ===== src/Fault.antt =====
-- internal/fault/fault.go: the errors of the services, and the checks on the texts they are given.
pub mod Laws
use Prim.Native.String.{len}
use golang_backend.Base.{
  ℕ, zero, suc, ◌%◌, ◌/◌, String, ◌<>◌, Bool, true, false, not, ◌&&◌, ◌||◌, Option, none, some,
  List, [], ◌∷◌, ◌==◌, nat_eq, string_eq, ltb, if◌then◌else◌, all, codes, rune_count, trim_space,
}

pub data Kind : Type 0 where
  invalid missing duplicate unauthorized forbidden internal too_large unavailable : Kind

-- The errors that the program tells apart: its own, with and without a cause, `sql.ErrNoRows`, those
-- of the two drivers by their code, and any other. The domain errors of notification/service.go are
-- plain ones, told apart by their text.
pub data Error : Type 0 where
  fault : Kind → String → Error
  caused : Kind → String → Error → Error
  no_rows : Error
  mysql : ℕ → Error
  pg : String → Error
  plain : String → Error

-- `errors.Is(err, sql.ErrNoRows)`; `Unwrap` goes to the cause
unfoldable pub is_no_rows : Error → Bool
is_no_rows no_rows = true
is_no_rows (caused k m cause) = is_no_rows cause
is_no_rows _ = false

abbrev already_exists : Error
already_exists = fault duplicate "Record already exists"

abbrev dangling : Error
dangling = fault invalid "Referenced record does not exist or is in use"

abbrev concurrent : Error
concurrent = fault duplicate "Concurrent change; retry the request"

abbrev hidden : Error → Error
hidden cause = caused internal "Internal server error" cause

mysql_fault : ℕ → Error
mysql_fault n =
    if n == 1062
    then already_exists
    else if n == 1451 || n == 1452
    then dangling
    else if n == 1205 || n == 1213
    then concurrent
    else hidden (mysql n)

pg_fault : String → Error
pg_fault code =
    if code == "23505"
    then already_exists
    else if code == "23503" || code == "23001"
    then dangling
    else if code == "40001" || code == "40P01"
    then concurrent
    else hidden (pg code)

-- `DB` of an error that is there; `DB(nil)` is `nil`
unfoldable pub db : Error → Error
unfolding mysql_fault pg_fault
db (fault k m) = fault k m
db (caused k m cause) = caused k m cause
db no_rows = fault missing "Not found"
db (mysql n) = mysql_fault n
db (pg code) = pg_fault code
db (plain m) = hidden (plain m)

-- `\s` of Go's regular expressions
re_space : ℕ → Bool
re_space c = c == 9 || c == 10 || c == 12 || c == 13 || c == 32

-- `[^\s@]`
unfoldable pub is_plain : ℕ → Bool
unfolding re_space
is_plain c = not (re_space c || c == b'@')

abbrev is_nil : List ℕ → Bool
is_nil [] = true
is_nil (x ∷ xs) = false

-- a dot with a character behind it
dot_then : List ℕ → Bool
dot_then [] = false
dot_then (c ∷ cs) = (c == b'.' && not (is_nil cs)) || dot_then cs

-- `[^\s@]+\.[^\s@]+` up to the end
domain : List ℕ → Bool
unfolding dot_then
domain [] = false
domain (c ∷ cs) = is_plain c && all is_plain cs && dot_then cs

-- the rest of `[^\s@]+@…`, where `seen` says whether a character has been read
local_part : Bool → List ℕ → Bool
local_part seen [] = false
local_part seen (c ∷ cs) =
    let rest = local_part true cs in if c == b'@' then seen && domain cs else is_plain c && rest

-- `emailRE.MatchString`
unfoldable pub email_matches : String → Bool
unfolding local_part domain is_plain
email_matches value = local_part false (codes value)

-- a condition under which Go returns this error, and `nil` otherwise
abbrev pub error_if : Bool → Error → Option Error
error_if true e = some e
error_if false e = none

-- `Email`
unfoldable pub email : String → Option Error
unfolding email_matches
email value =
    error_if (not (email_matches value) || ltb 320 (len value))
      (fault invalid "Invalid email address")

digit : ℕ → String
digit n =
    if n == 0
    then "0"
    else if n == 1
    then "1"
    else if n == 2
    then "2"
    else if n == 3
    then "3"
    else if n == 4
    then "4"
    else if n == 5
    then "5"
    else if n == 6
    then "6"
    else if n == 7
    then "7"
    else if n == 8
    then "8"
    else "9"

digits : ℕ → ℕ → String → String
digits zero n acc = acc
digits (suc fuel) n acc =
    let acc' = digit (n % 10) <> acc in
    let rest = digits fuel (n / 10) acc' in if ltb n 10 then acc' else rest

-- `%d`; a number has at most as many digits as its successor counts
unfoldable pub decimal : ℕ → String
unfolding digits digit
decimal n = digits (suc n) n ""

-- `Name`
unfoldable pub name : String → ℕ → Option Error
unfolding trim_space decimal
name value max =
    error_if (trim_space value == "" || ltb max (rune_count value))
      (fault invalid ("name must contain 1-" <> (decimal max <> " characters")))

-- `UUID`, where `valid` is what `uuid.Parse` of github.com/google/uuid says of the text
abbrev pub uuid : Bool → Option Error
uuid valid = error_if (not valid) (fault invalid "Invalid UUID")
