-- ===== src/Supervision/Shutdown/Unique.antt =====
-- A dictionary of shutdowns has each slot once (core/account_shutdown.py, purge_expired).
use teleautomation_messaging.Prelude.{
  ◌≡◌, refl, String, Bool, Option, none, some, [], ◌∷◌, keep, Dict, lookup, insert, erase,
  lookup-insert, lookup-erase, eq_iff, if◌then◌else◌, arith,
}

module _ {V : Type 0} where
  -- No key stands twice.
  abbrev pub HasUniqueKeys : Dict V → Type 0
  HasUniqueKeys [] = Unit
  HasUniqueKeys ((k, v) ∷ d) = (lookup k d ≡ none) × HasUniqueKeys d

  pub insert-HasUniqueKeys :
      (key : String) (v : V) (d : Dict V) → HasUniqueKeys d → HasUniqueKeys (insert key v d)
  unfolding insert lookup
  insert-HasUniqueKeys key v [] h = (refl, tt)
  insert-HasUniqueKeys key v ((j, w) ∷ d) h =
      ground (
        arith,
        lookup-insert key j v d,
        insert-HasUniqueKeys key v d h.1,
        eq_iff j key,
        eq_iff key j,
      )

  pub erase-HasUniqueKeys :
      (key : String) (d : Dict V) → HasUniqueKeys d → HasUniqueKeys (erase key d)
  unfolding erase lookup
  erase-HasUniqueKeys key [] h = tt
  erase-HasUniqueKeys key ((j, w) ∷ d) h =
      ground (arith, lookup-erase key j d, erase-HasUniqueKeys key d h.1)

  abbrev pub if_kept : (V → Bool) → Option V → Option V
  if_kept p none = none
  if_kept p (some v) = if p v then some v else none

  pub lookup-keep :
      (p : V → Bool) (key : String) (d : Dict V)
      → HasUniqueKeys d
      → lookup key (keep (λ e. p e.1) d) ≡ if_kept p (lookup key d)
  unfolding lookup
  lookup-keep p key [] h = refl
  lookup-keep p key ((j, w) ∷ d) h = ground (arith, eq_iff j key, h.0, lookup-keep p key d h.1)

  pub keep-HasUniqueKeys :
      (p : V → Bool) (d : Dict V) → HasUniqueKeys d → HasUniqueKeys (keep (λ e. p e.1) d)
  keep-HasUniqueKeys p [] h = tt
  keep-HasUniqueKeys p ((j, w) ∷ d) h =
      ground (arith, h.0, lookup-keep p j d h.1, keep-HasUniqueKeys p d h.1)
