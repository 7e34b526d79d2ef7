-- ===== src/Tests/Settings.antt =====
-- A setting of `.env`, written by cmd/initproject and read by internal/config/dotenv.go.
use golang_backend.Base.{◌≡◌, refl, ap, some, List, [], ◌∷◌, ◌++◌}
use golang_backend.Config.Dotenv.{
  Text, JsonText, double_quote, equals, front, inner, Line, literal, read_content, serialize_env,
  line_feed,
}
use golang_backend.Config.Laws.{IsJsonText, front_quoted}
use golang_backend.Config.Lines.{contains-append, read_content-serialize_env}

-- texts between quotes, without the escapes
abbrev plain_json : JsonText
plain_json = record {
  marshal = λ s. double_quote ∷ (s ++ double_quote ∷ []);
  unmarshal = λ s. some (inner s);
}

plain_json_laws : IsJsonText plain_json
unfolding golang_backend.Base.nat_eq
plain_json_laws = record {
  is_between = λ s. (s, refl);
  one_line = λ s free. contains-append line_feed s (double_quote ∷ []) free refl;
  unmarshal-marshal = λ s. ap some (front_quoted double_quote s);
}

-- `KEY`, and `a'$\b`
abbrev key : Text
key = 75 ∷ 69 ∷ 89 ∷ []

abbrev value : Text
value = 97 ∷ 39 ∷ 36 ∷ 92 ∷ 98 ∷ []

read_content-serialize_env_example :
    read_content plain_json (key ++ equals ∷ serialize_env plain_json value)
    ≡ literal key value ∷ []
unfolding golang_backend.Base.nat_eq golang_backend.Base.is_space
    golang_backend.Config.Dotenv.trim_start golang_backend.Config.Dotenv.trim_end
read_content-serialize_env_example =
    read_content-serialize_env plain_json plain_json_laws key value refl refl refl
