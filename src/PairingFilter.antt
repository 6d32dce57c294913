-- ===== src/PairingFilter.antt =====
-- main/src/pairing_filter.c: which unbonded keyboards may be paired. A C string is the list of its
-- characters without the final 0. The two Kconfig options are the record `Config`. `tolower` and
-- `isspace` are those of the C locale.
pub mod Names
pub mod Entries
use zmk_usb_bridge.Prelude.{
  ℕ, zero, suc, ◌+◌, Bool, true, false, not, ◌&&◌, ◌||◌, List, [], ◌∷◌, ◌++◌, Option, none, some,
  ◌==◌, ltb, leb, if◌then◌else◌, length,
}
use mathlib.Core.List.{reverse}
use zmk_usb_bridge.Types.{Status, ok, size_mismatch, PairingCandidate}
use zmk_usb_bridge.World.{World, Op}

pub record Config : Type 0 where
  pub allowlist_enabled : Bool
  pub allowlist : List ℕ

abbrev pub raw_max : ℕ
raw_max = 192

abbrev pub name_max : ℕ
name_max = 32

abbrev pub max_entries : ℕ
max_entries = 8

unfoldable pub to_lower : ℕ → ℕ
to_lower c = if leb b'A' c && leb c b'Z' then c + 32 else c

unfoldable pub is_space : ℕ → Bool
is_space c = c == 32 || (leb 9 c && leb c 13)

unfoldable pub equals_case_insensitive : List ℕ → List ℕ → Bool
unfolding to_lower
equals_case_insensitive [] [] = true
equals_case_insensitive [] (r ∷ right) = false
equals_case_insensitive (l ∷ left) [] = false
equals_case_insensitive (l ∷ left) (r ∷ right) =
    if to_lower l == to_lower r then equals_case_insensitive left right else false

-- The two loops of `trim_in_place`, from the front and from the end.
unfoldable pub skip_spaces : List ℕ → List ℕ
unfolding is_space
skip_spaces [] = []
skip_spaces (c ∷ text) = if is_space c then skip_spaces text else c ∷ text

unfoldable pub trim_in_place : List ℕ → List ℕ
unfolding skip_spaces
trim_in_place text = reverse (skip_spaces (reverse (skip_spaces text)))

-- `strchr(cursor, ',')`: the token before the comma, and the cursor behind it.
unfoldable pub before_comma : List ℕ → List ℕ
before_comma [] = []
before_comma (c ∷ text) = if c == b',' then [] else c ∷ before_comma text

unfoldable pub after_comma : List ℕ → List ℕ
after_comma [] = []
after_comma (c ∷ text) = if c == b',' then text else after_comma text

-- The loop over the tokens, with the entries stored so far; `none` means that the fuel ran out.
unfoldable pub parse_entries : ℕ → List ℕ → List (List ℕ) → Option (Status × List (List ℕ))
parse_entries zero cursor entries = none
parse_entries (suc fuel) [] entries = some (ok, entries)
parse_entries (suc fuel) (c ∷ text) entries =
    let token = trim_in_place (before_comma (c ∷ text)) in
    let next = after_comma (c ∷ text) in
    let skip = parse_entries fuel next entries in
    let store = parse_entries fuel next (entries ++ (token ∷ [])) in
    if ltb (length entries) max_entries
    then if length token == 0
      then skip
      else if leb name_max (length token)
      then some (size_mismatch, entries)
      else store
    else some (ok, entries)

-- What `init` leaves in the table, with its status.
unfoldable pub configured_entries : Config → Status × List (List ℕ)
unfolding parse_entries
configured_entries cfg =
    let parsed = parse_entries (suc (length cfg.allowlist)) cfg.allowlist [] in
    if cfg.allowlist_enabled && not (length cfg.allowlist == 0)
    then if leb raw_max (length cfg.allowlist)
      then (size_mismatch, [])
      else elim parsed [ none ↦ (ok, []) | some r ↦ r ]
    else (ok, [])

unfoldable pub init : Config → Op World
unfolding configured_entries
init cfg w =
    let (status, entries) = configured_entries cfg in
    (status, record w { filter = record { entries = entries } })

any_equal : List ℕ → List (List ℕ) → Bool
unfolding equals_case_insensitive
any_equal name [] = false
any_equal name (entry ∷ rest) =
    if equals_case_insensitive name entry then true else any_equal name rest

unfoldable pub name_allowed : Config → Option (List ℕ) → World → Bool
unfolding any_equal
name_allowed cfg none w = if cfg.allowlist_enabled then length w.filter.entries == 0 else true
name_allowed cfg (some name) w =
    if cfg.allowlist_enabled
    then if length w.filter.entries == 0
      then true
      else if length name == 0
      then false
      else any_equal name w.filter.entries
    else true

unfoldable pub accept_unbonded_candidate : Config → Option PairingCandidate → World → Bool
unfolding name_allowed
accept_unbonded_candidate cfg none w = false
accept_unbonded_candidate cfg (some candidate) w =
    if candidate.connectable
    then if candidate.has_hid_service
      then if candidate.has_keyboard_appearance
        then name_allowed cfg candidate.local_name w
        else false
      else false
    else false
