-- ===== src/PairingFilter/Names.antt =====
-- Which candidates main/src/pairing_filter.c accepts.
use zmk_usb_bridge.Prelude.{
  ℕ, ◌≡◌, ◌≢◌, refl, ◌↔◌, ◌⊎◌, inl, inr, true, false, List, [], ◌∷◌, Option, none, some, arith,
  ◌==◌, length, map, Bool-cases, ap, ◌∙◌,
}
use mathlib.Core.List.{Memᴰ}
use zmk_usb_bridge.Types.{PairingCandidate}
use zmk_usb_bridge.World.{World}
use zmk_usb_bridge.PairingFilter.{
  Config, to_lower, equals_case_insensitive, any_equal, name_allowed, accept_unbonded_candidate,
}

-- The comparison decides equality of the names in lower case.
pub equals_case_insensitive_iff :
    (left right : List ℕ)
    → (equals_case_insensitive left right ≡ true) ↔ (map to_lower left ≡ map to_lower right)
unfolding equals_case_insensitive
equals_case_insensitive_iff [] [] = (λ _. refl, λ _. refl)
equals_case_insensitive_iff [] (r ∷ right) = (λ h. cc, λ h. cc)
equals_case_insensitive_iff (l ∷ left) [] = (λ h. cc, λ h. cc)
equals_case_insensitive_iff (l ∷ left) (r ∷ right) =
    ground (arith, equals_case_insensitive_iff left right)

-- An entry of the table is the name up to case.
pub Listed : List ℕ → List (List ℕ) → Type 0
Listed name entries =
    (entry : List ℕ) × Memᴰ entry entries × (map to_lower name ≡ map to_lower entry)

any_equal-Listed :
    (name : List ℕ) (entries : List (List ℕ)) → any_equal name entries ≡ true → Listed name entries
unfolding any_equal Listed
any_equal-Listed name [] h = cc
any_equal-Listed name (e ∷ rest) h = elim (Bool-cases (equals_case_insensitive name e)) [
  | inl eq ↦ (e, Memᴰ.head refl, (equals_case_insensitive_iff name e).0 eq)
  | inr ne ↦
      let (found, at, eq) = any_equal-Listed name rest (rw ne at h) in (found, Memᴰ.tail at, eq)
]

Listed-any_equal :
    (name entry : List ℕ) (entries : List (List ℕ))
    → Memᴰ entry entries
    → map to_lower name ≡ map to_lower entry
    → any_equal name entries ≡ true
unfolding any_equal
Listed-any_equal name entry [] at eq = elim at [ ]
Listed-any_equal name entry (e ∷ rest) (Memᴰ.head same) eq =
    rw ((equals_case_insensitive_iff name e).1 (eq ∙ ap (map to_lower) same))
Listed-any_equal name entry (e ∷ rest) (Memᴰ.tail at) eq =
    ground (arith, Listed-any_equal name entry rest at eq)

-- A name that the filter lets pass: with the allowlist enabled and not empty, it is given, it is
-- not empty and it is an entry up to case.
pub NamePasses : Config → Option (List ℕ) → List (List ℕ) → Type 0
NamePasses cfg name entries =
    (cfg.allowlist_enabled ≡ false)
    ⊎ (entries ≡ [])
    ⊎ ((given : List ℕ) × (name ≡ some given) × (given ≢ []) × Listed given entries)

name_allowed_sound :
    (cfg : Config) (name : Option (List ℕ)) (w : World)
    → name_allowed cfg name w ≡ true
    → NamePasses cfg name w.filter.entries
unfolding name_allowed NamePasses
name_allowed_sound cfg none w h = ground arith
name_allowed_sound cfg (some name) w h = elim (Bool-cases cfg.allowlist_enabled) [
  | inr off ↦ inl off
  | inl on ↦ elim (Bool-cases (length w.filter.entries == 0)) [
    | inl empty ↦ inr (inl (ground arith))
    | inr full ↦
        inr (inr (name, refl, ground arith, any_equal-Listed name w.filter.entries (ground arith)))
  ]
]

name_allowed_complete :
    (cfg : Config) (name : Option (List ℕ)) (w : World)
    → NamePasses cfg name w.filter.entries
    → name_allowed cfg name w ≡ true
unfolding name_allowed NamePasses Listed
name_allowed_complete cfg none w (inl off) = ground arith
name_allowed_complete cfg (some name) w (inl off) = ground arith
name_allowed_complete cfg none w (inr (inl empty)) = ground arith
name_allowed_complete cfg (some name) w (inr (inl empty)) = ground arith
name_allowed_complete cfg none w (inr (inr (given, e, n, l))) = cc
name_allowed_complete cfg (some name) w (inr (inr (given, e, n, (entry, at, eq)))) =
    ground (arith, Listed-any_equal given entry w.filter.entries at eq)

-- A candidate is accepted exactly if it is given, is connectable, has the HID service and a
-- keyboard's appearance, and its name passes: without an allowlist every name does, a missing one
-- too; with one, the name has to be an entry up to the case of its letters.
pub accept_candidate_iff :
    (cfg : Config) (c : PairingCandidate) (w : World)
    → (accept_unbonded_candidate cfg (some c) w ≡ true) ↔ (
        (c.connectable ≡ true)
        × (c.has_hid_service ≡ true)
        × (c.has_keyboard_appearance ≡ true)
        × NamePasses cfg c.local_name w.filter.entries)
unfolding accept_unbonded_candidate
accept_candidate_iff cfg c w = (
  λ h. (
    ground arith,
    ground arith,
    ground arith,
    name_allowed_sound cfg c.local_name w (ground arith),
  ),
  λ h. ground (arith, name_allowed_complete cfg c.local_name w h.3),
)
