-- ===== src/Config/Lines.antt =====
-- internal/config/dotenv.go and cmd/initproject/main.go: a file of one line.
use golang_backend.Base.{
  ℕ, ◌≡◌, refl, ◌∙◌, ap, false, [], ◌∷◌, ◌++◌, arith, ◌==◌, nat_eq, contains, Bool-cases, map, inl,
  inr,
}
use golang_backend.Config.Dotenv.{
  Text, dollar, single_quote, equals, backslash, JsonText, escape, trim, literal, read_line,
  serialize_env, line_feed, unix_lines, split_lines, read_content,
}
use golang_backend.Config.Laws.{IsJsonText, written_slashed, written_plain, line_lem}

pub contains-append :
    (c : ℕ) (s t : Text) → contains s c ≡ false → contains t c ≡ false → contains (s ++ t) c ≡ false
contains-append c [] t h k = k
contains-append c (d ∷ s) t h k = ground (arith, contains-append c s t)

escape_one_line :
    (q : ℕ) (s : Text)
    → (q == line_feed) ≡ false
    → contains s line_feed ≡ false
    → contains (escape q s) line_feed ≡ false
unfolding escape
escape_one_line q [] h k = refl
escape_one_line q (c ∷ s) h k = ground (arith, escape_one_line q s h)

one_file_line : (s : Text) → contains s line_feed ≡ false → unix_lines s ≡ s
unfolding unix_lines
one_file_line [] h = refl
one_file_line (c ∷ []) h = ground arith
one_file_line (c ∷ d ∷ s) h = ground (arith, one_file_line (d ∷ s))

split_one : (s : Text) → contains s line_feed ≡ false → split_lines s ≡ s ∷ []
unfolding split_lines
split_one [] h = refl
split_one (c ∷ s) h = ground (arith, split_one s)

one_line_lem : (s : Text) → contains s line_feed ≡ false → split_lines (unix_lines s) ≡ s ∷ []
one_line_lem s h = ap split_lines (one_file_line s h) ∙ split_one s h

module _ (json : JsonText) (laws : IsJsonText json) where
  serialized_line :
      (value : Text)
      → contains value line_feed ≡ false
      → contains (serialize_env json value) line_feed ≡ false
  unfolding nat_eq
  serialized_line value h = elim (Bool-cases (contains value backslash)) [
    | inl slashed ↦
        ap (λ t. contains t line_feed) (written_slashed json laws value slashed)
        ∙ escape_one_line dollar (json.marshal value) refl (laws.one_line value h)
    | inr plain ↦
        ap (λ t. contains t line_feed) (written_plain json laws value plain)
        ∙ contains-append line_feed (escape single_quote value) (single_quote ∷ [])
            (escape_one_line single_quote value refl h) refl
  ]

  -- A file of one setting that `serializeEnv` wrote is read back as this setting, whatever quotes,
  -- dollars, backslashes, carriage returns or spaces the value holds, where neither the name nor the
  -- value has a line feed and the name no `=`. The name has the space around it taken off.
  pub read_content-serialize_env :
      (key value : Text)
      → contains key equals ≡ false
      → contains key line_feed ≡ false
      → contains value line_feed ≡ false
      → read_content json (key ++ equals ∷ serialize_env json value) ≡ literal (trim key) value ∷ []
  unfolding read_content nat_eq serialize_env
  read_content-serialize_env key value h k v =
      let free =
        contains-append line_feed key (equals ∷ serialize_env json value) k
          (serialized_line value v) in
      ap (λ ls. map (read_line json) ls) (one_line_lem _ free)
      ∙ ap (λ line. line ∷ []) (line_lem json laws key value h)
