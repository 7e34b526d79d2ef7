-- ===== src/Audit/Redact.antt =====
-- internal/audit/audit.go: `sensitiveKey`, `redact`, `Capture`. Members whose key hints at a secret
-- are dropped at every depth. `lower` is `strings.ToLower`, whose Unicode tables are not modelled.
use golang_backend.Base.{
  String, ◌≡◌, refl, Bool, true, not, ◌&&◌, ◌||◌, List, [], ◌∷◌, arith, ◌==◌, string_eq,
  if◌then◌else◌, any, contains_text,
}
use golang_backend.Json.{
  Json, Items, Members, null, bool, number, text, array, object, nil, item, end, member,
}

abbrev sensitive_parts : List String
sensitive_parts =
    "password" ∷ "token" ∷ "secret" ∷ "credential" ∷ "authorization" ∷ "cookie" ∷ "apikey"
    ∷ "api_key" ∷ []

module _ (lower : String → String) where
  unfoldable pub sensitive_key : String → Bool
  unfolding contains_text
  sensitive_key key = lower key == "hash" || any (contains_text (lower key)) sensitive_parts

unfoldable mutual
  pub redact : (String → String) → Json → Json
  redact lower null = null
  redact lower (bool b) = bool b
  redact lower (number n) = number n
  redact lower (text s) = text s
  redact lower (array xs) = array (redact_items lower xs)
  redact lower (object ms) = object (redact_members lower ms)

  pub redact_items : (String → String) → Items → Items
  redact_items lower nil = nil
  redact_items lower (item x xs) = item (redact lower x) (redact_items lower xs)

  pub redact_members : (String → String) → Members → Members
  redact_members lower end = end
  redact_members lower (member key value ms) =
      if sensitive_key lower key
      then redact_members lower ms
      else member key (redact lower value) (redact_members lower ms)

-- no key of an object, at any depth, is sensitive
unfoldable mutual
  pub is_clean : (String → String) → Json → Bool
  is_clean lower (array xs) = items_clean lower xs
  is_clean lower (object ms) = members_clean lower ms
  is_clean lower null = true
  is_clean lower (bool b) = true
  is_clean lower (number n) = true
  is_clean lower (text s) = true

  pub items_clean : (String → String) → Items → Bool
  items_clean lower nil = true
  items_clean lower (item x xs) = is_clean lower x && items_clean lower xs

  pub members_clean : (String → String) → Members → Bool
  members_clean lower end = true
  members_clean lower (member key value ms) =
      not (sensitive_key lower key) && (is_clean lower value && members_clean lower ms)

mutual
  unfolding redact is_clean

  clean : (lower : String → String) (j : Json) → is_clean lower (redact lower j) ≡ true
  clean lower null = refl
  clean lower (bool b) = refl
  clean lower (number n) = refl
  clean lower (text s) = refl
  clean lower (array xs) = clean_items lower xs
  clean lower (object ms) = clean_members lower ms

  clean_items :
      (lower : String → String) (xs : Items) → items_clean lower (redact_items lower xs) ≡ true
  clean_items lower nil = refl
  clean_items lower (item x xs) = ground (arith, clean lower x, clean_items lower xs)

  clean_members :
      (lower : String → String) (ms : Members)
      → members_clean lower (redact_members lower ms) ≡ true
  clean_members lower end = refl
  clean_members lower (member key value ms) =
      ground (arith, clean lower value, clean_members lower ms)

mutual
  unfolding redact is_clean

  kept : (lower : String → String) (j : Json) → is_clean lower j ≡ true → redact lower j ≡ j
  kept lower null h = refl
  kept lower (bool b) h = refl
  kept lower (number n) h = refl
  kept lower (text s) h = refl
  kept lower (array xs) h = cc (kept_items lower xs h)
  kept lower (object ms) h = cc (kept_members lower ms h)

  kept_items :
      (lower : String → String) (xs : Items)
      → items_clean lower xs ≡ true
      → redact_items lower xs ≡ xs
  kept_items lower nil h = refl
  kept_items lower (item x xs) h = ground (arith, kept lower x, kept_items lower xs)

  kept_members :
      (lower : String → String) (ms : Members)
      → members_clean lower ms ≡ true
      → redact_members lower ms ≡ ms
  kept_members lower end h = refl
  kept_members lower (member key value ms) h =
      ground (arith, kept lower value, kept_members lower ms)

-- For any `strings.ToLower`: after `redact` no key at any depth of the value is sensitive, and to redact it
-- again changes nothing.
pub redact_safe :
    (lower : String → String) (j : Json)
    → (is_clean lower (redact lower j) ≡ true) × (redact lower (redact lower j) ≡ redact lower j)
redact_safe lower j = (clean lower j, kept lower (redact lower j) (clean lower j))

-- `redact` leaves a value alone in which no key at any depth is sensitive.
pub redact_keeps :
    (lower : String → String) (j : Json) → is_clean lower j ≡ true → redact lower j ≡ j
redact_keeps lower j h = kept lower j h
