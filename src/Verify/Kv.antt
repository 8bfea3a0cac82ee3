-- ===== src/Verify/Kv.antt =====
-- verify/helpers.py: the check of the keys that OpenBao holds.
pub mod Gaps
use rke2_lab.Base.{
  String, ◌<>◌, Bool, true, false, none, List, [], ◌∷◌, ◌++◌, ◌||◌, join, if◌then◌else◌,
}
use rke2_lab.Base.Dict.{Dict, has_key}
use rke2_lab.Py.Value.{Value, obj, arr, str, entries, items, equals_text}
use rke2_lab.Py.Text.{has_part}
use rke2_lab.Py.Result.{type_error, assertion_error}
use rke2_lab.Py.Effect.{
  Result, ok, err, Env, Io, pure, raise, lift, try_except, except_runtime, ◌>>=◌,
}
use rke2_lab.Verify.Session.{json_of, item_of, bao_api}

unfoldable pub bao_kv_data : Env → String → Io Value
unfolding bao_api json_of item_of lift ◌>>=◌
bao_kv_data env path = do
  resp ← bao_api env ("/v1/kv/data/" <> path) none "GET" none (200 ∷ [])
  payload ← lift (json_of resp)
  outer ← lift (item_of "data" payload)
  lift (item_of "data" outer)

abbrev any_equal : String → List Value → Bool
any_equal key [] = false
any_equal key (v ∷ vs) = equals_text key v || any_equal key vs

-- `key in data`
unfoldable pub value_has : String → Value → Result Bool
unfolding has_key entries items has_part
value_has key (obj fs) = ok (has_key key (entries fs))
value_has key (arr vs) = ok (any_equal key (items vs))
value_has key (str text) = ok (has_part key text)
value_has key _ = err type_error

unfoldable pub key_gaps : String → Value → List String → Io (List String)
unfolding value_has lift pure ◌>>=◌
key_gaps path held [] = pure []
key_gaps path held (key ∷ keys) = do
  present ← lift (value_has key held)
  rest ← key_gaps path held keys
  pure (if present then rest else (path <> (": missing key " <> key)) ∷ rest)

-- What one path holds, or why it could not be read.
pub data Reading : Type 0 where
  holds : Value → Reading
  unread : String → Reading

unfoldable pub read_path : Env → String → Io Reading
unfolding bao_kv_data try_except pure ◌>>=◌
read_path env path =
    try_except (do held ← bao_kv_data env path; pure (holds held))
      (except_runtime λ text. pure (unread text))

abbrev pub gaps_in : String → List String → Reading → Io (List String)
gaps_in path keys (holds held) = key_gaps path held keys
gaps_in path keys (unread text) = pure ((path <> (": " <> text)) ∷ [])

unfoldable pub kv_gaps : Env → Dict (List String) → Io (List String)
unfolding read_path key_gaps pure ◌>>=◌
kv_gaps env [] = pure []
kv_gaps env ((path, keys) ∷ expected) = do
  reading ← read_path env path
  missing ← gaps_in path keys reading
  rest ← kv_gaps env expected
  pure (missing ++ rest)

abbrev pub assert_no_gaps : List String → Io (Unit {0})
assert_no_gaps [] = pure tt
assert_no_gaps (gap ∷ gaps) =
    raise (assertion_error ("OpenBao KV gaps: " <> join "; " (gap ∷ gaps)))

unfoldable pub bao_kv_keys_present : Env → Dict (List String) → Io (Unit {0})
unfolding kv_gaps pure raise ◌>>=◌
bao_kv_keys_present env expected = do missing ← kv_gaps env expected; assert_no_gaps missing
