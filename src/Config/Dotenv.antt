-- ===== src/Config/Dotenv.antt =====
-- internal/config/dotenv.go, `LoadEnvironment`: the lines of `.env`; and cmd/initproject/main.go,
-- `serializeEnv`, which writes such lines. A text is the list of its code points here.
use golang_backend.Base.{
  ℕ, Bool, false, not, ◌&&◌, Option, none, some, List, [], ◌∷◌, ◌++◌, ◌==◌, nat_eq, if◌then◌else◌,
  contains, is_space, map,
}

abbrev pub Text : Type 0
Text = List ℕ

-- `"`, `$`, `'`, `=` and `\`
abbrev pub double_quote : ℕ
double_quote = 34

abbrev pub dollar : ℕ
dollar = 36

abbrev pub single_quote : ℕ
single_quote = 39

abbrev pub equals : ℕ
equals = 61

abbrev pub backslash : ℕ
backslash = 92

abbrev carriage_return : ℕ
carriage_return = 13

abbrev pub line_feed : ℕ
line_feed = 10

-- `encoding/json` on texts: `Marshal`, and `Unmarshal` into a string
pub record JsonText : Type 0 where
  pub marshal : Text → Text
  pub unmarshal : Text → Option Text

-- `strings.ReplaceAll(s, c, "\\"+c)`
unfoldable pub escape : ℕ → Text → Text
escape q [] = []
escape q (c ∷ s) = let rest = escape q s in if c == q then backslash ∷ q ∷ rest else c ∷ rest

-- `strings.ReplaceAll(s, "\\"+c, c)` of the rest of a text, where `held` says that a backslash has been read
-- and is not yet written
unfoldable pub unescape_from : ℕ → Bool → Text → Text
unescape_from q held [] = if held then backslash ∷ [] else []
unescape_from q held (c ∷ s) =
    let rest = unescape_from q (c == backslash) s in
    if c == backslash
    then (if held then backslash ∷ rest else rest)
    else if held && not (c == q)
    then backslash ∷ c ∷ rest
    else c ∷ rest

abbrev pub unescape : ℕ → Text → Text
unescape q s = unescape_from q false s

-- `strings.TrimSpace`
unfoldable pub trim_start : Text → Text
trim_start [] = []
trim_start (c ∷ s) = let rest = trim_start s in if is_space c then rest else c ∷ s

abbrev pub keep_end : ℕ → Text → Text
keep_end c [] = if is_space c then [] else c ∷ []
keep_end c (d ∷ s) = c ∷ d ∷ s

unfoldable pub trim_end : Text → Text
trim_end [] = []
trim_end (c ∷ s) = keep_end c (trim_end s)

abbrev pub trim : Text → Text
trim s = trim_end (trim_start s)

-- `strings.SplitN(line, "=", 2)`, where it gives two parts
abbrev pub longer : ℕ → Option (Text × Text) → Option (Text × Text)
longer c none = none
longer c (some (before, after)) = some (c ∷ before, after)

unfoldable pub cut : Text → Option (Text × Text)
cut [] = none
cut (c ∷ s) = let rest = cut s in if c == equals then some ([], s) else longer c rest

-- `raw[:len(raw)-1]`, and whether `raw` ends with a character
abbrev pub front : Text → Text
front [] = []
front (c ∷ []) = []
front (c ∷ d ∷ s) = c ∷ front (d ∷ s)

abbrev pub has_end : ℕ → Text → Bool
has_end q [] = false
has_end q (c ∷ []) = c == q
has_end q (c ∷ d ∷ s) = has_end q (d ∷ s)

-- `len(raw) >= 2`, and the first and the last character are the quote
abbrev pub is_quoted : ℕ → Text → Bool
is_quoted q [] = false
is_quoted q (c ∷ []) = false
is_quoted q (c ∷ d ∷ s) = c == q && has_end q (d ∷ s)

-- `raw[1:len(raw)-1]`
abbrev pub inner : Text → Text
inner [] = []
inner (c ∷ s) = front s

-- `strings.ReplaceAll(content, "\r\n", "\n")`
abbrev pub feeds : Text → Bool
feeds [] = false
feeds (c ∷ s) = c == line_feed

unfoldable pub unix_lines : Text → Text
unix_lines [] = []
unix_lines (c ∷ s) =
    let rest = unix_lines s in if c == carriage_return && feeds s then rest else c ∷ rest

-- `strings.Split(s, "\n")`
abbrev pub onto_first : ℕ → List Text → List Text
onto_first c [] = (c ∷ []) ∷ []
onto_first c (line ∷ lines) = (c ∷ line) ∷ lines

unfoldable pub split_lines : Text → List Text
split_lines [] = [] ∷ []
split_lines (c ∷ s) =
    let rest = split_lines s in if c == line_feed then [] ∷ rest else onto_first c rest

-- what a line is: none of this function's, an assignment of a literal, or one that cannot be read
pub data Line : Type 0 where
  other : Line
  literal : Text → Text → Line
  broken : Line

module _ (json : JsonText) where
  abbrev pub decoded : Text → Option Text → Line
  decoded key none = broken
  decoded key (some value) = literal key value

  unfoldable pub read_value : Text → Text → Line
  read_value key raw =
      if is_quoted double_quote raw
      then decoded key (json.unmarshal (unescape dollar raw))
      else if is_quoted single_quote raw
      then literal key (unescape single_quote (inner raw))
      else other

  abbrev pub read_parts : Option (Text × Text) → Line
  read_parts none = other
  read_parts (some (key, raw)) = read_value (trim key) (trim raw)

  -- the body of the loop of `LoadEnvironment`
  unfoldable pub read_line : Text → Line
  read_line line = read_parts (cut line)

  -- what the loop makes of each line of the file
  unfoldable pub read_content : Text → List Line
  read_content content = map read_line (split_lines (unix_lines content))

  -- `serializeEnv`
  unfoldable pub serialize_env : Text → Text
  serialize_env value =
      if contains value backslash
      then escape dollar (json.marshal value)
      else single_quote ∷ (escape single_quote value ++ single_quote ∷ [])
