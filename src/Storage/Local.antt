-- ===== src/Storage/Local.antt =====
-- internal/storage/storage.go: `Local`, a directory with a file for each object. The operating system is
-- a parameter: what it does to the entries of the directory, by their names.
use golang_backend.Base.{String, Bool, ◌||◌, Option, ◌==◌, string_eq, if◌then◌else◌, has_separator}
use golang_backend.Fault.{Error, plain}
use golang_backend.Database.Action.{Result, ok, err}

pub record FileSystem (S : Type 0) : Type 0 where
  -- `os.OpenFile(…, O_CREATE|O_EXCL|O_WRONLY, 0600)`
  pub open_new : String → S → Result (Unit {0}) × S
  -- `io.Copy` into the open file
  pub copy : String → String → S → Result (Unit {0}) × S
  pub close : String → S → Result (Unit {0}) × S
  pub unlink : String → S → Result (Unit {0}) × S
  -- `os.IsNotExist`
  pub is_not_exist : Error → Bool
  pub file_at : String → S → Option String

module _ {S : Type 0} (fs : FileSystem S) where
  -- `path`
  unfoldable pub is_bad_key : String → Bool
  is_bad_key key = key == "" || (has_separator key || (key == "." || key == ".."))

  unfoldable pub invalid_key : Error
  invalid_key = plain "invalid object key"

  -- `_ = os.Remove(path)`, and the error that is returned
  abbrev pub give_up : String → Error → S → Result (Unit {0}) × S
  give_up key e s = (err e, (fs.unlink key s).1)

  -- the errors of `io.Copy` and of `Close`, the first of them returned
  abbrev pub settle : String → Result (Unit {0}) → Result (Unit {0}) → S → Result (Unit {0}) × S
  settle key (err e) closed s = give_up key e s
  settle key (ok u) (err e) s = give_up key e s
  settle key (ok u) (ok v) s = (ok tt, s)

  abbrev pub written : String → String → Result (Unit {0}) × S → Result (Unit {0}) × S
  written key contents (err e, s) = (err e, s)
  written key contents (ok u, s) =
      let (copied, s1) = fs.copy key contents s in
      let (closed, s2) = fs.close key s1 in settle key copied closed s2

  -- `Put`
  unfoldable pub put : String → String → S → Result (Unit {0}) × S
  put key contents s =
      if is_bad_key key then (err invalid_key, s) else written key contents (fs.open_new key s)

  abbrev pub ignore_missing : Result (Unit {0}) × S → Result (Unit {0}) × S
  ignore_missing (ok u, s) = (ok tt, s)
  ignore_missing (err e, s) = if fs.is_not_exist e then (ok tt, s) else (err e, s)

  -- `Delete`
  unfoldable pub delete : String → S → Result (Unit {0}) × S
  delete key s = if is_bad_key key then (err invalid_key, s) else ignore_missing (fs.unlink key s)
