-- ===== src/Storage/Names.antt =====
-- The argument checks of src/harness/storage/contracts.ts: state names and lease lifetimes. A name
-- that passes is ASCII, so its code points are the code units that the source counts.
use Prim.Native.Char.{code}
use loomctl.Base.{
  ℕ, ◌-◌, Bool, true, false, not, ◌&&◌, ◌||◌, String, leb, eqb, Result, invalid, check,
}

is_alphanumeric : ℕ → Bool
is_alphanumeric c =
    (leb b'A' c && leb c b'Z') || (leb b'a' c && leb c b'z') || (leb b'0' c && leb c b'9')

is_name_char : ℕ → Bool
unfolding is_alphanumeric
is_name_char c =
    is_alphanumeric c || eqb c b'.' || eqb c b'_' || eqb c b':' || eqb c b'/' || eqb c b'-'

-- `[A-Za-z0-9._:/-]{0,n}$`
name_tail : ℕ → String → Bool
unfolding is_name_char
name_tail n String.[] = true
name_tail n (String.◌∷◌ c s) = leb 1 n && is_name_char (code c) && name_tail (n - 1) s

-- The text begins with a dot.
abbrev starts_with_dot : String → Bool
starts_with_dot String.[] = false
starts_with_dot (String.◌∷◌ c s) = eqb (code c) b'.'

-- `value.includes("..")`
has_dots : String → Bool
has_dots String.[] = false
has_dots (String.◌∷◌ c s) = (eqb (code c) b'.' && starts_with_dot s) || has_dots s

unfoldable pub is_state_name : String → Bool
unfolding is_alphanumeric name_tail has_dots
is_state_name String.[] = false
is_state_name (String.◌∷◌ c s) =
    is_alphanumeric (code c) && name_tail 511 s && not (has_dots (String.◌∷◌ c s))

abbrev pub assert_state_name : String → Result (Unit {0})
assert_state_name value = check (is_state_name value) invalid

abbrev max_ttl_ms : ℕ
max_ttl_ms = 604800000

abbrev pub positive_ttl_ms : ℕ → Result (Unit {0})
positive_ttl_ms value = check (leb 1 value && leb value max_ttl_ms) invalid
