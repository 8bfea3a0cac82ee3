-- ===== src/Pve/Reading.antt =====
-- How the program takes decoded JSON apart: `get`, `or`, `for`, `int` and `str` on any value, with
-- the exception that a value of another type raises.
use rke2_lab.Base.{String, true, false, Option, none, some, List, [], ◌∷◌, map, if◌then◌else◌}
use rke2_lab.Base.Int.{ℤ, pos}
use rke2_lab.Base.Dict.{keys}
use rke2_lab.Py.Value.{
  Value, null, bool, int, str, arr, obj, end, get_default, items, entries, truthy,
}
use rke2_lab.Py.Text.{int_of_text}
use rke2_lab.Py.Result.{Result, ok, err, value_error, type_error, attribute_error}
use rke2_lab.Py.Effect.{Env}

-- `v.get(k, default)`
unfoldable pub get_of : String → Value → Value → Result Value
get_of k default (obj fs) = ok (get_default k default fs)
get_of k default _ = err attribute_error

-- `payload.get("data") if isinstance(payload, dict) else payload`
unfoldable pub data_or_self : Value → Value
data_or_self (obj fs) = get_default "data" null fs
data_or_self v = v

-- `payload.get("data", payload) if isinstance(payload, dict) else payload`
unfoldable pub data_or_payload : Value → Value
data_or_payload (obj fs) = get_default "data" (obj fs) fs
data_or_payload v = v

unfoldable pub or_empty : Value → Value
or_empty v = if truthy v then v else obj end

-- `payload.get("data") or {} if isinstance(payload, dict) else {}`
unfoldable pub data_or_empty : Value → Value
unfolding or_empty
data_or_empty (obj fs) = or_empty (get_default "data" null fs)
data_or_empty _ = obj end

letters : String → List Value
letters String.[] = []
letters (String.◌∷◌ c s) = str (String.◌∷◌ c "") ∷ letters s

-- `for x in v`: a dict gives its keys, a text its characters.
unfoldable pub iterate : Value → Result (List Value)
unfolding letters
iterate (arr vs) = ok (items vs)
iterate (obj fs) = ok (map str (keys (entries fs)))
iterate (str s) = ok (letters s)
iterate _ = err type_error

-- `for x in v or []`
unfoldable pub iterate_or_nil : Value → Result (List Value)
unfolding iterate
iterate_or_nil v = if truthy v then iterate v else ok []

abbrev read_int : Option ℤ → Result ℤ
read_int none = err (value_error "invalid literal for int()")
read_int (some n) = ok n

-- `int(v)`
unfoldable pub int_of : Value → Result ℤ
int_of (int n) = ok n
int_of (bool true) = ok (pos 1)
int_of (bool false) = ok (pos 0)
int_of (str s) = read_int (int_of_text s)
int_of _ = err type_error

-- `str(v)`, or `v` in a formatted text
unfoldable pub text_of : Env → Value → String
text_of env (str s) = s
text_of env v = env.show_value v
