-- ===== src/Cleanup/Mac.antt =====
-- infra/pulumi/modules/pve_cleanup.py: the regular expression `_NET_MAC_RE`,
-- `virtio=([0-9A-Fa-f]{2}(?::[0-9A-Fa-f]{2}){5})`.
use Prim.Native.Char.{Char, code}
use Prim.Native.String.{String}
use rke2_lab.Base.{ℕ, zero, suc, Bool, ◌&&◌, ◌||◌, Option, none, some, leb, eqb, if◌then◌else◌}
use rke2_lab.Py.Text.{strip_prefix, is_digit}

abbrev pub is_hex : ℕ → Bool
is_hex c = is_digit c || (leb 65 c && leb c 70) || (leb 97 c && leb c 102)

abbrev grow : Char → Option String → Option String
grow c none = none
grow c (some m) = some (String.◌∷◌ c m)

-- A pair of digits, and `more` times a colon and a pair.
unfoldable pub hex_pairs : ℕ → String → Option String
hex_pairs zero (String.◌∷◌ c (String.◌∷◌ d s)) =
    if is_hex (code c) && is_hex (code d) then some (String.◌∷◌ c (String.◌∷◌ d "")) else none
hex_pairs (suc more) (String.◌∷◌ c (String.◌∷◌ d (String.◌∷◌ e s))) =
    let rest = hex_pairs more s in
    if is_hex (code c) && is_hex (code d) && eqb (code e) 58
    then grow c (grow d (grow e rest))
    else none
hex_pairs _ _ = none

group_at : Option String → Option String
unfolding hex_pairs
group_at none = none
group_at (some s) = hex_pairs 5 s

abbrev first_of {ℓ} : {A : Type ℓ} → Option A → Option A → Option A
first_of (some a) o = some a
first_of none o = o

-- `_NET_MAC_RE.search(s)` with its group
unfoldable pub find_mac : String → Option String
unfolding group_at strip_prefix
find_mac String.[] = none
find_mac (String.◌∷◌ c s) =
    first_of (group_at (strip_prefix "virtio=" (String.◌∷◌ c s))) (find_mac s)
