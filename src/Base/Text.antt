-- ===== src/Base/Text.antt =====
-- What the program uses of Go's `strings`, over texts.
use Prim.Native.Nat.{ℕ, zero, suc, ◌≤◌}
use mathlib.Core.Path.{◌≡◌, refl}
use native.Mathlib.Omega.{arith}
use Prim.Native.Char.{Char, code}
use Prim.Native.String.{String}
use mathlib.Core.Bool.{Bool, true, false, ◌&&◌, ◌||◌}
use mathlib.Core.List.{List, [], ◌∷◌}
use golang_backend.Base.Equality.{◌==◌, nat_eq, string_eq, leb, if◌then◌else◌}

-- the code points of a text; its bytes, if it is ASCII
abbrev pub codes : String → List ℕ
codes String.[] = []
codes (String.◌∷◌ c s) = code c ∷ codes s

-- `utf8.RuneCountInString`
abbrev pub rune_count : String → ℕ
rune_count String.[] = 0
rune_count (String.◌∷◌ c s) = suc (rune_count s)

-- `unicode.IsSpace`
unfoldable pub is_space : ℕ → Bool
unfolding nat_eq
is_space c =
    (leb 9 c && leb c 13)
    || c == 32
    || c == 0x85
    || c == 0xA0
    || c == 0x1680
    || (leb 0x2000 c && leb c 0x200A)
    || c == 0x2028
    || c == 0x2029
    || c == 0x202F
    || c == 0x205F
    || c == 0x3000

unfoldable pub trim_left : String → String
trim_left String.[] = String.[]
trim_left (String.◌∷◌ c s) =
    let rest = trim_left s in if is_space (code c) then rest else String.◌∷◌ c s

abbrev trim_cons : Char → String → String
trim_cons c String.[] = if is_space (code c) then String.[] else String.◌∷◌ c String.[]
trim_cons c (String.◌∷◌ d s) = String.◌∷◌ c (String.◌∷◌ d s)

unfoldable pub trim_right : String → String
trim_right String.[] = String.[]
trim_right (String.◌∷◌ c s) = trim_cons c (trim_right s)

-- `strings.TrimSpace`
unfoldable pub trim_space : String → String
unfolding trim_left trim_right is_space
trim_space s = trim_right (trim_left s)

unfoldable pub has_prefix : List ℕ → List ℕ → Bool
unfolding nat_eq
has_prefix xs [] = true
has_prefix [] (y ∷ ys) = false
has_prefix (x ∷ xs) (y ∷ ys) = x == y && has_prefix xs ys

unfoldable pub has_part : List ℕ → List ℕ → Bool
unfolding has_prefix
has_part [] part = has_prefix [] part
has_part (x ∷ xs) part = has_prefix (x ∷ xs) part || has_part xs part

-- `strings.Contains`
unfoldable pub contains_text : String → String → Bool
unfolding has_part
contains_text s part = has_part (codes s) (codes part)

-- `strings.HasPrefix`
unfoldable pub text_has_prefix : String → String → Bool
unfolding has_prefix
text_has_prefix s prefix = has_prefix (codes s) (codes prefix)

-- the text behind its first characters
unfoldable pub text_after : ℕ → String → String
text_after zero s = s
text_after (suc n) String.[] = String.[]
text_after (suc n) (String.◌∷◌ c s) = text_after n s

-- the first characters of a text
abbrev pub text_take : ℕ → String → String
text_take zero s = String.[]
text_take (suc n) String.[] = String.[]
text_take (suc n) (String.◌∷◌ c s) = String.◌∷◌ c (text_take n s)

-- `strings.ContainsAny(s, "/\\")`, on the code points 47 and 92
abbrev pub is_separator : ℕ → Bool
is_separator c = c == 47 || c == 92

abbrev pub has_separator : String → Bool
has_separator String.[] = false
has_separator (String.◌∷◌ c s) = is_separator (code c) || has_separator s

-- `s[strings.LastIndexAny(s, "/\\")+1:]`
abbrev pub last_segment : String → String
last_segment String.[] = String.[]
last_segment (String.◌∷◌ c s) =
    let rest = last_segment s in
    if has_separator s then rest else if is_separator (code c) then s else String.◌∷◌ c s

pub rune_count-text_take-le : (n : ℕ) (s : String) → rune_count (text_take n s) ≤ n
rune_count-text_take-le zero s = omega arith
rune_count-text_take-le (suc n) String.[] = omega arith
rune_count-text_take-le (suc n) (String.◌∷◌ c s) = omega (arith, rune_count-text_take-le n s)

pub last_segment-separator : (s : String) → has_separator (last_segment s) ≡ false
last_segment-separator String.[] = refl
last_segment-separator (String.◌∷◌ c s) = ground (arith, last_segment-separator s)
