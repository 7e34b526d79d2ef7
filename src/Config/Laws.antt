-- ===== src/Config/Laws.antt =====
-- internal/config/dotenv.go and cmd/initproject/main.go: what is written is what is read.
use golang_backend.Base.{
  ℕ, ◌≡◌, refl, sym, ◌∙◌, ap, Bool, true, false, some, [], ◌∷◌, ◌++◌, arith, ◌==◌, ==→eq, ==_refl,
  nat_eq, contains, is_space, Bool-cases, inl, inr,
}
use golang_backend.Config.Dotenv.{
  Text, double_quote, dollar, single_quote, equals, backslash, JsonText, escape, unescape_from,
  unescape, trim_start, trim_end, trim, cut, front, has_end, is_quoted, literal, read_value,
  read_parts, read_line, serialize_env, line_feed,
}

-- what `encoding/json` documents of a text: it is written between double quotes and with no new line feed, and read back
pub record IsJsonText (json : JsonText) : Type 0 where
  pub is_between :
      (s : Text) → (body : Text) × (json.marshal s ≡ double_quote ∷ (body ++ double_quote ∷ []))
  pub one_line :
      (s : Text) → contains s line_feed ≡ false → contains (json.marshal s) line_feed ≡ false
  pub unmarshal-marshal : (s : Text) → json.unmarshal (json.marshal s) ≡ some s

abbrev held_before : Bool → Text → Text
held_before true s = backslash ∷ s
held_before false s = s

unescaped_end : (q : ℕ) (held : Bool) → unescape_from q held (escape q []) ≡ held_before held []
unfolding unescape_from escape
unescaped_end q true = refl
unescaped_end q false = refl

read_backslash :
    (q : ℕ) (held : Bool) (s : Text)
    → unescape_from q held (backslash ∷ s) ≡ held_before held (unescape_from q true s)
unfolding unescape_from nat_eq
read_backslash q true s = refl
read_backslash q false s = refl

read_marked :
    (q : ℕ) (held : Bool) (s : Text)
    → (q == backslash) ≡ false
    → unescape_from q held (q ∷ s) ≡ q ∷ unescape_from q false s
unfolding unescape_from
read_marked q true s h = ground (arith, ==_refl q)
read_marked q false s h = ground arith

read_other :
    (q c : ℕ) (held : Bool) (s : Text)
    → (c == backslash) ≡ false
    → (c == q) ≡ false
    → unescape_from q held (c ∷ s) ≡ held_before held (c ∷ unescape_from q false s)
unfolding unescape_from
read_other q c true s h k = ground arith
read_other q c false s h k = ground arith

escape_marked : (q : ℕ) (s : Text) → escape q (q ∷ s) ≡ backslash ∷ q ∷ escape q s
unfolding escape
escape_marked q s = ground (arith, ==_refl q)

escape_other : (q c : ℕ) (s : Text) → (c == q) ≡ false → escape q (c ∷ s) ≡ c ∷ escape q s
unfolding escape
escape_other q c s h = ground arith

unescape_from-escape :
    (q : ℕ) (s : Text) (held : Bool)
    → (q == backslash) ≡ false
    → unescape_from q held (escape q s) ≡ held_before held s
unescape_from-escape q [] held h = unescaped_end q held
unescape_from-escape q (c ∷ s) held h =
    let holding = unescape_from-escape q s true h in
    let writing = unescape_from-escape q s false h in
    elim (Bool-cases (c == q)) [
      | inl at ↦
          let e : c ≡ q = ==→eq c q at in
          ap (λ d. unescape_from q held (escape q (d ∷ s))) e
          ∙ ap (unescape_from q held) (escape_marked q s)
          ∙ read_backslash q held (q ∷ escape q s)
          ∙ ap (held_before held) (
              read_marked q true (escape q s) h ∙ ap (λ t. q ∷ t) writing ∙ ap (λ d. d ∷ s) (sym e))
      | inr apart ↦
          ap (unescape_from q held) (escape_other q c s apart)
          ∙ elim (Bool-cases (c == backslash)) [
            | inl slash ↦
                let e : c ≡ backslash = ==→eq c backslash slash in
                ap (λ d. unescape_from q held (d ∷ escape q s)) e
                ∙ read_backslash q held (escape q s)
                ∙ ap (held_before held) (holding ∙ ap (λ d. d ∷ s) (sym e))
            | inr plain ↦
                read_other q c held (escape q s) plain apart
                ∙ ap (λ t. held_before held (c ∷ t)) writing
          ]
    ]

escape_end : (p q : ℕ) (s : Text) → (p == q) ≡ false → escape q (s ++ p ∷ []) ≡ escape q s ++ p ∷ []
unfolding escape
escape_end p q [] h = ground arith
escape_end p q (c ∷ s) h = ground (arith, escape_end p q s h)

escape_quoted :
    (p q : ℕ) (s : Text)
    → (p == q) ≡ false
    → escape q (p ∷ (s ++ p ∷ [])) ≡ p ∷ (escape q s ++ p ∷ [])
unfolding escape
escape_quoted p q s h = ground (arith, escape_end p q s h)

trim_end_quoted : (q : ℕ) (s : Text) → is_space q ≡ false → trim_end (s ++ q ∷ []) ≡ s ++ q ∷ []
unfolding trim_end
trim_end_quoted q [] h = ground arith
trim_end_quoted q (c ∷ []) h = ground arith
trim_end_quoted q (c ∷ d ∷ s) h = ground (arith, trim_end_quoted q (d ∷ s) h)

pub front_quoted : (q : ℕ) (s : Text) → front (s ++ q ∷ []) ≡ s
front_quoted q [] = refl
front_quoted q (c ∷ []) = refl
front_quoted q (c ∷ d ∷ s) = ap (λ t. c ∷ t) (front_quoted q (d ∷ s))

has_end_quoted : (q : ℕ) (s : Text) → has_end q (s ++ q ∷ []) ≡ true
has_end_quoted q [] = ground arith
has_end_quoted q (c ∷ []) = ground arith
has_end_quoted q (c ∷ d ∷ s) = has_end_quoted q (d ∷ s)

is_quoted_lem : (q : ℕ) (s : Text) → is_quoted q (q ∷ (s ++ q ∷ [])) ≡ true
is_quoted_lem q [] = ground arith
is_quoted_lem q (c ∷ s) = ground (arith, has_end_quoted q (c ∷ s))

not_quoted : (p q : ℕ) (s : Text) → (p == q) ≡ false → is_quoted q (p ∷ (s ++ p ∷ [])) ≡ false
not_quoted p q [] h = ground arith
not_quoted p q (c ∷ s) h = ground arith

cut_lem :
    (key raw : Text) → contains key equals ≡ false → cut (key ++ equals ∷ raw) ≡ some (key, raw)
unfolding cut
cut_lem [] raw h = ground arith
cut_lem (c ∷ key) raw h = ground (arith, cut_lem key raw)

trim_quoted : (q : ℕ) (s : Text) → is_space q ≡ false → trim (q ∷ (s ++ q ∷ [])) ≡ q ∷ (s ++ q ∷ [])
unfolding trim_start
trim_quoted q s h =
    ap (λ t. trim_end t) (kept_start q (s ++ q ∷ []) h) ∙ trim_end_quoted q (q ∷ s) h
  where
    kept_start : (q : ℕ) (s : Text) → is_space q ≡ false → trim_start (q ∷ s) ≡ q ∷ s
    kept_start q s h = ground arith

module _ (json : JsonText) (laws : IsJsonText json) where
  read_double :
      (key body : Text) (value : Text)
      → json.unmarshal (unescape dollar (double_quote ∷ (body ++ double_quote ∷ []))) ≡ some value
      → read_value json key (double_quote ∷ (body ++ double_quote ∷ [])) ≡ literal key value
  unfolding read_value
  read_double key body value h = ground (arith, is_quoted_lem double_quote body)

  read_single :
      (key body : Text)
      → read_value json key (single_quote ∷ (body ++ single_quote ∷ []))
        ≡ literal key (unescape single_quote body)
  unfolding read_value nat_eq
  read_single key body = ground (
    arith,
    not_quoted single_quote double_quote body refl,
    is_quoted_lem single_quote body,
    front_quoted single_quote body,
  )

  pub written_slashed :
      (value : Text)
      → contains value backslash ≡ true
      → serialize_env json value ≡ escape dollar (json.marshal value)
  unfolding serialize_env
  written_slashed value h = ground arith

  pub written_plain :
      (value : Text)
      → contains value backslash ≡ false
      → serialize_env json value ≡ single_quote ∷ (escape single_quote value ++ single_quote ∷ [])
  unfolding serialize_env
  written_plain value h = ground arith

  read_slashed :
      (key value : Text)
      → read_value json key (trim (escape dollar (json.marshal value))) ≡ literal key value
  unfolding nat_eq is_space
  read_slashed key value =
      let (body, between) = laws.is_between value in
      let form = ap (escape dollar) between ∙ escape_quoted double_quote dollar body refl in
      let back =
        ap (unescape dollar) (sym form)
        ∙ unescape_from-escape dollar (json.marshal value) false refl in
      ap (λ t. read_value json key (trim t)) form
      ∙ ap (read_value json key) (trim_quoted double_quote (escape dollar body) refl)
      ∙ read_double key (escape dollar body) value
          (ap json.unmarshal back ∙ laws.unmarshal-marshal value)

  read_plain :
      (key value : Text)
      → read_value json key (trim (single_quote ∷ (escape single_quote value ++ single_quote ∷ [])))
        ≡ literal key value
  unfolding nat_eq is_space
  read_plain key value =
      ap (read_value json key) (trim_quoted single_quote (escape single_quote value) refl)
      ∙ read_single key (escape single_quote value)
      ∙ ap (literal key) (unescape_from-escape single_quote value false refl)

  read_serialized :
      (key value : Text) → read_value json key (trim (serialize_env json value)) ≡ literal key value
  read_serialized key value = elim (Bool-cases (contains value backslash)) [
    | inl slashed ↦
        ap (λ t. read_value json key (trim t)) (written_slashed value slashed)
        ∙ read_slashed key value
    | inr plain ↦
        ap (λ t. read_value json key (trim t)) (written_plain value plain) ∙ read_plain key value
  ]

  pub line_lem :
      (key value : Text)
      → contains key equals ≡ false
      → read_line json (key ++ equals ∷ serialize_env json value) ≡ literal (trim key) value
  unfolding read_line
  line_lem key value h =
      ap (read_parts json) (cut_lem key (serialize_env json value) h)
      ∙ read_serialized (trim key) value
