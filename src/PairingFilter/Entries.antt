-- ===== src/PairingFilter/Entries.antt =====
-- What main/src/pairing_filter.c makes of the configured allowlist.
use zmk_usb_bridge.Prelude.{
  ℕ, zero, suc, ◌+◌, ◌≡◌, ◌≢◌, ◌≤◌, ◌<◌, refl, ◌⊎◌, inl, inr, true, not, ◌&&◌, List, [], ◌∷◌, ◌++◌,
  some, arith, ◌==◌, ltb, leb, length, Bool-cases, length-append,
}
use mathlib.Core.Path.{◌∙◌}
use mathlib.Core.List.{append-nil, append_assoc}
use zmk_usb_bridge.Types.{Status, ok, size_mismatch}
use zmk_usb_bridge.PairingFilter.{
  Config, raw_max, name_max, max_entries, trim_in_place, before_comma, after_comma, parse_entries,
  configured_entries,
}

length-after_comma : (c : ℕ) (text : List ℕ) → length (after_comma (c ∷ text)) ≤ length text
unfolding after_comma
length-after_comma c [] = ground arith
length-after_comma c (d ∷ text) = ground (arith, length-after_comma d text)

-- An entry that the table may hold.
abbrev pub IsEntry : List ℕ → Type 0
IsEntry entry = (0 < length entry) × (length entry < name_max)

abbrev pub AllEntries : List (List ℕ) → Type 0
AllEntries [] = Unit
AllEntries (e ∷ rest) = IsEntry e × AllEntries rest

AllEntries-snoc :
    (entries : List (List ℕ)) (e : List ℕ)
    → AllEntries entries
    → IsEntry e
    → AllEntries (entries ++ (e ∷ []))
AllEntries-snoc [] e h i = (i, tt)
AllEntries-snoc (x ∷ rest) e h i = (h.0, AllEntries-snoc rest e h.1 i)

-- How the loop ends: the table is well formed, and the status is one of two.
pub record Ending (r : Status × List (List ℕ)) : Type 0 where
  pub entries : AllEntries r.1
  pub few : length r.1 ≤ max_entries
  pub known : (r.0 ≡ ok) ⊎ (r.0 ≡ size_mismatch)

ending :
    {r : Status × List (List ℕ)}
    → AllEntries r.1
    → length r.1 ≤ max_entries
    → (r.0 ≡ ok) ⊎ (r.0 ≡ size_mismatch)
    → Ending r
ending a n k = record { entries = a; few = n; known = k }

-- With as much fuel as characters the loop ends, by running out of characters, by a full table or
-- by a name that is too long, and its table is well formed.
parse_total :
    (fuel : ℕ) (cursor : List ℕ) (entries : List (List ℕ))
    → length cursor < fuel
    → AllEntries entries
    → length entries ≤ max_entries
    → (r : Status × List (List ℕ)) × (parse_entries fuel cursor entries ≡ some r) × Ending r
unfolding parse_entries
parse_total zero cursor entries f a n = absurd (omega arith)
parse_total (suc fuel) [] entries f a n = ((ok, entries), refl, ending a n (inl refl))
parse_total (suc fuel) (c ∷ text) entries f a n =
    let token = trim_in_place (before_comma (c ∷ text)) in
    let next = after_comma (c ∷ text) in
    let shorter : length next < fuel = omega (arith, length-after_comma c text) in
    elim (Bool-cases (ltb (length entries) max_entries)) [
      | inr full ↦ ((ok, entries), rw full, ending a n (inl refl))
      | inl room ↦ elim (Bool-cases (length token == 0)) [
        | inl empty ↦
            let (r, e, h) = parse_total fuel next entries shorter a n in (r, rw (room, empty) e, h)
        | inr named ↦ elim (Bool-cases (leb name_max (length token))) [
          | inl long ↦ ((size_mismatch, entries), rw (room, named, long), ending a n (inr refl))
          | inr short ↦
              let (r, e, h) =
                parse_total fuel next (entries ++ (token ∷ [])) shorter
                  (AllEntries-snoc entries token a (ground arith))
                  (ground (arith, length-append entries (token ∷ []))) in
              (r, rw (room, named, short) e, h)
        ]
      ]
    ]

empty-Ending : (status : Status) → (status ≡ ok) ⊎ (status ≡ size_mismatch) → Ending (status, [])
empty-Ending status k = record { entries = tt; few = omega arith; known = k }

configured-Ending :
    (cfg : Config) (r : Status × List (List ℕ))
    → parse_entries (suc (length cfg.allowlist)) cfg.allowlist [] ≡ some r
    → Ending r
    → Ending (configured_entries cfg)
unfolding configured_entries
configured-Ending cfg r e h =
    elim (Bool-cases (cfg.allowlist_enabled && not (length cfg.allowlist == 0))) [
      | inl on ↦ elim (Bool-cases (leb raw_max (length cfg.allowlist))) [
        | inl long ↦ rw (on, long) (empty-Ending size_mismatch (inr refl))
        | inr fits ↦ rw (on, fits, e) h
      ]
      | inr off ↦ rw off (empty-Ending ok (inl refl))
    ]

-- `init` ends with OK or SIZE_MISMATCH for every configured text, its loop never wanting fuel, and
-- leaves at most 8 entries, each of 1 to 31 characters.
pub configured_entries_total :
    (cfg : Config)
    → Ending (configured_entries cfg)
      × ((r : Status × List (List ℕ)) × (parse_entries (suc (length cfg.allowlist)) cfg.allowlist []
            ≡ some r))
unfolding configured_entries
configured_entries_total cfg =
    let (r, e, h) =
      parse_total (suc (length cfg.allowlist)) cfg.allowlist [] (omega arith) tt (omega arith) in
    (configured-Ending cfg r e h, (r, e))

-- No comma in a name.
abbrev pub NoComma : List ℕ → Type 0
NoComma [] = Unit
NoComma (c ∷ name) = (c ≢ b',') × NoComma name

-- A name that can be configured: 1 to 31 characters, no comma, no space at either end.
pub record IsName (name : List ℕ) : Type 0 where
  pub entry : IsEntry name
  pub no_comma : NoComma name
  pub trimmed : trim_in_place name ≡ name

abbrev pub AllNames : List (List ℕ) → Type 0
AllNames [] = Unit
AllNames (name ∷ rest) = IsName name × AllNames rest

-- The names with commas between them.
abbrev pub join : List (List ℕ) → List ℕ
join [] = []
join (name ∷ []) = name
join (name ∷ next ∷ rest) = name ++ b',' ∷ join (next ∷ rest)

comma_first :
    (name rest : List ℕ)
    → NoComma name
    → (before_comma (name ++ b',' ∷ rest) ≡ name) × (after_comma (name ++ b',' ∷ rest) ≡ rest)
unfolding before_comma after_comma
comma_first [] rest h = (refl, refl)
comma_first (c ∷ name) rest h = ground (arith, comma_first name rest h.1)

comma_none : (name : List ℕ) → NoComma name → (before_comma name ≡ name) × (after_comma name ≡ [])
unfolding before_comma after_comma
comma_none [] h = (refl, refl)
comma_none (c ∷ name) h = ground (arith, comma_none name h.1)

store_step :
    (fuel c : ℕ) (text : List ℕ) (entries : List (List ℕ)) (name next : List ℕ)
    → length entries < max_entries
    → IsEntry name
    → trim_in_place name ≡ name
    → before_comma (c ∷ text) ≡ name
    → after_comma (c ∷ text) ≡ next
    → parse_entries (suc fuel) (c ∷ text) entries ≡ parse_entries fuel next (entries ++ (name ∷ []))
unfolding parse_entries
store_step fuel c text entries name next n i t b a = rw (b, a, t) (ground arith)

parse_end :
    (fuel : ℕ) (entries : List (List ℕ))
    → parse_entries (suc fuel) [] entries ≡ some (ok, entries ++ [])
unfolding parse_entries
parse_end fuel entries = rw append-nil

length-join : (name : List ℕ) (rest : List (List ℕ)) → IsName name → 0 < length (join (name ∷ rest))
length-join name [] h = h.entry.0
length-join name (next ∷ rest) h =
    omega (arith, h.entry, length-append name (b',' ∷ join (next ∷ rest)))

parse-join :
    (names : List (List ℕ)) (fuel : ℕ) (entries : List (List ℕ))
    → AllNames names
    → length (join names) < fuel
    → length entries + length names ≤ max_entries
    → parse_entries fuel (join names) entries ≡ some (ok, entries ++ names)
parse-join names zero entries h f n = absurd (omega arith)
parse-join [] (suc fuel) entries h f n = parse_end fuel entries
parse-join ([] ∷ []) (suc fuel) entries h f n = absurd (omega (arith, h.0.entry))
parse-join ([] ∷ next ∷ rest) (suc fuel) entries h f n = absurd (omega (arith, h.0.entry))
parse-join ((c ∷ name) ∷ []) (suc fuel) entries h f n =
    let (b, a) = comma_none (c ∷ name) h.0.no_comma in
    store_step fuel c name entries (c ∷ name) [] (omega arith) h.0.entry h.0.trimmed b a
    ∙ parse-join [] fuel (entries ++ ((c ∷ name) ∷ [])) tt (omega arith)
        (omega (arith, length-append entries ((c ∷ name) ∷ [])))
    ∙ rw append-nil
parse-join ((c ∷ name) ∷ next ∷ rest) (suc fuel) entries h f n =
    let tail = join (next ∷ rest) in
    let (b, a) = comma_first (c ∷ name) tail h.0.no_comma in
    store_step fuel c (name ++ b',' ∷ tail) entries (c ∷ name) tail (omega arith) h.0.entry
      h.0.trimmed b a
    ∙ parse-join (next ∷ rest) fuel (entries ++ ((c ∷ name) ∷ [])) h.1
        (omega (arith, length-append name (b',' ∷ tail)))
        (omega (arith, length-append entries ((c ∷ name) ∷ [])))
    ∙ rw append_assoc

-- Up to 8 names that can be configured, written with commas between them in fewer than 192
-- characters, are read back as they are, in their order.
pub entries_of_joined :
    (names : List (List ℕ))
    → AllNames names
    → length names ≤ max_entries
    → length (join names) < raw_max
    → configured_entries (record { allowlist_enabled = true; allowlist = join names }) ≡ (ok, names)
unfolding configured_entries
entries_of_joined [] h n l = refl
entries_of_joined (name ∷ rest) h n l =
    let names = name ∷ rest in
    ground (
      arith,
      parse-join names (suc (length (join names))) [] h (omega arith) (omega arith),
      length-join name rest h.0,
    )
