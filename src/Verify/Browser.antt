-- ===== src/Verify/Browser.antt =====
-- verify/helpers.py: the forms of Keycloak's login pages.
use Prim.Native.Char.{code}
use rke2_lab.Base.{
  ℕ, String, ◌<>◌, Bool, true, false, ◌&&◌, ◌||◌, not, Option, none, some, List, [], ◌∷◌, eqb, leb,
  ◌==◌, if◌then◌else◌,
}
use rke2_lab.Base.Dict.{Dict, insert}
use rke2_lab.Py.Text.{has_part, strip_prefix, break_at}
use rke2_lab.Py.Effect.{Env, Page}

-- Up to the next quote, where there is one.
abbrev quoted : String × Option String → Option String
quoted (value, none) = none
quoted (value, some rest) = some value

abbrev pub or_else {ℓ} : {A : Type ℓ} → Option A → Option A → Option A
or_else none later = later
or_else (some a) later = some a

abbrev pub quoted_after : Option String → Option String
quoted_after none = none
quoted_after (some rest) = quoted (break_at 34 rest)

-- `re.search(r'<name>="([^"]*)"', tag)`, with the prefix up to the quote
unfoldable pub attribute : String → String → Option String
unfolding strip_prefix break_at
attribute prefix String.[] = none
attribute prefix (String.◌∷◌ c s) =
    or_else (quoted_after (strip_prefix prefix (String.◌∷◌ c s))) (attribute prefix s)

-- A letter, a digit or `_`.
abbrev is_word : ℕ → Bool
is_word n = (leb 48 n && leb n 57) || (leb 65 n && leb n 90) || (leb 97 n && leb n 122) || eqb n 95

abbrev starts_plain : String → Bool
starts_plain String.[] = true
starts_plain (String.◌∷◌ c s) = not (is_word (code c))

abbrev after_input : Option String → Option String
after_input none = none
after_input (some rest) = if starts_plain rest then some rest else none

abbrev tag_text : String × Option String → Option String
tag_text (inner, none) = none
tag_text (inner, some rest) = some ("<input" <> (inner <> ">"))

abbrev tag_after : Option String → Option String
tag_after none = none
tag_after (some rest) = tag_text (break_at 62 rest)

-- A match of `<input\b[^>]*>` at this position.
unfoldable pub input_at : String → Option String
unfolding strip_prefix break_at
input_at s = tag_after (after_input (strip_prefix "<input" s))

abbrev add_tag : Option String → (Bool → List String) → List String
add_tag none later = later false
add_tag (some tag) later = tag ∷ later true

-- `re.finditer`: the flag says that the last match goes on to the next `>`.
unfoldable pub input_tags : Bool → String → List String
unfolding input_at
input_tags inside String.[] = []
input_tags true (String.◌∷◌ c s) = input_tags (not (eqb (code c) 62)) s
input_tags false (String.◌∷◌ c s) =
    add_tag (input_at (String.◌∷◌ c s)) (λ inside. input_tags inside s)

abbrev or_blank : Option String → String
or_blank none = ""
or_blank (some value) = value

abbrev put_field : Env → Option String → Option String → Dict String → Dict String
put_field env none value fields = fields
put_field env (some name) value fields =
    insert (env.unescape name) (env.unescape (or_blank value)) fields

unfoldable pub fields_of_tags : Env → List String → Dict String → Dict String
unfolding attribute has_part insert
fields_of_tags env [] fields = fields
fields_of_tags env (tag ∷ tags) fields = fields_of_tags env tags (
    if has_part "type=\"hidden\"" tag
    then put_field env (attribute "name=\"" tag) (attribute "value=\"" tag) fields
    else fields)

-- `_hidden_fields`
unfoldable pub hidden_fields : Env → String → Dict String
unfolding input_tags fields_of_tags
hidden_fields env page_html = fields_of_tags env (input_tags false page_html) []

abbrev nonempty : Option String → Option String
nonempty none = none
nonempty (some value) = if value == "" then none else some value

-- The last `action="..."` before the end of the tag: `[^>]+` takes as much as it can.
unfoldable pub last_action : String → Option String
unfolding strip_prefix break_at
last_action String.[] = none
last_action (String.◌∷◌ c s) =
    if eqb (code c) 62
    then none
    else or_else (last_action s) (nonempty (quoted_after (strip_prefix "action=\"" s)))

abbrev action_after : Option String → Option String
action_after none = none
action_after (some rest) = last_action rest

-- `re.search(r'<form[^>]+action="([^"]+)"', text)`
unfoldable pub form_action : String → Option String
unfolding last_action strip_prefix
form_action String.[] = none
form_action (String.◌∷◌ c s) =
    or_else (action_after (strip_prefix "<form" (String.◌∷◌ c s))) (form_action s)

abbrev action_or : Env → Option String → String → String
action_or env none url = url
action_or env (some action) url = env.unescape action

-- `_parse_form`
unfoldable pub parse_form : Env → Page → String × Dict String
unfolding form_action hidden_fields
parse_form env page = (action_or env (form_action page.text) page.url, hidden_fields env page.text)
