-- ===== src/Supervision/Shutdown/Listed.antt =====
-- How long an account rests (core/account_shutdown.py).
use teleautomation_messaging.Prelude.{
  ℕ, ◌+◌, ◌≤◌, ◌≡◌, refl, ap, ◌∙◌, String, Bool, not, Option, none, some, List, [], ◌∷◌, ltb,
  str_eq, if◌then◌else◌, Dict, lookup, lookup-insert, lookup-erase, Option-cases, inl, inr, arith,
  eq_iff, Bool-cases, false,
}
use teleautomation_messaging.Supervision.Shutdown.{
  Shutdown, shutdown_entry, is_over, info_of, get_shutdown_info, is_there, is_shutdown_active,
  put_on_shutdown_list, clear_shutdown, clear_all_shutdowns, purge_expired, ShutdownOp, puts, lifts,
  lifts_all, purges, shutdown_step, or_same, shutdown_run,
}
use teleautomation_messaging.Supervision.Shutdown.Unique.{
  HasUniqueKeys, insert-HasUniqueKeys, erase-HasUniqueKeys, lookup-keep, if_kept,
  keep-HasUniqueKeys,
}

-- When the rest of the slot ends, by the calls alone; 0 where it does not rest.
abbrev pub rests_until : ℕ → String → ℕ → List ShutdownOp → ℕ
rests_until duration slot until [] = until
rests_until duration slot until (puts now other reason was_running last ∷ ops) =
    rests_until duration slot
      (if str_eq other "" then until else if str_eq other slot then now + duration else until) ops
rests_until duration slot until (lifts other ∷ ops) =
    rests_until duration slot (if str_eq other slot then 0 else until) ops
rests_until duration slot until (lifts_all ∷ ops) = rests_until duration slot 0 ops
rests_until duration slot until (purges now ∷ ops) = rests_until duration slot until ops

-- No purge is later than the time.
abbrev pub PurgedBy : ℕ → List ShutdownOp → Type 0
PurgedBy t [] = Unit
PurgedBy t (puts now other reason was_running last ∷ ops) = PurgedBy t ops
PurgedBy t (lifts other ∷ ops) = PurgedBy t ops
PurgedBy t (lifts_all ∷ ops) = PurgedBy t ops
PurgedBy t (purges now ∷ ops) = (now ≤ t) × PurgedBy t ops

module _ (duration t : ℕ) (slot : String) where
  pub record IsListed (accounts : Dict Shutdown) (until : ℕ) : Type 0 where
    pub unique : HasUniqueKeys accounts
    pub active : is_shutdown_active duration t slot accounts ≡ ltb t until

  put-IsListed :
      (now : ℕ) (other reason : String) (was : Bool) (last : Option ℕ) (d : Dict Shutdown) (u : ℕ)
      → IsListed d u
      → IsListed
          (or_same d (put_on_shutdown_list duration now other reason was last d))
          (if str_eq other "" then u else if str_eq other slot then now + duration else u)
  unfolding put_on_shutdown_list is_shutdown_active get_shutdown_info info_of is_over shutdown_entry
  put-IsListed now other reason was last d u v =
      let raw : Shutdown = record {
        shutdown_at = now;
        resume_at = now + duration;
        reason = reason;
        was_running = was;
        last_send_at = last;
      } in
      elim (Bool-cases (str_eq other "")) [
        | inl e ↦ rw e v
        | inr e ↦ rw e (record {
          unique = insert-HasUniqueKeys other raw d v.unique;
          active = ground (
            arith,
            e,
            eq_iff other slot,
            eq_iff slot "",
            eq_iff other "",
            lookup-insert other slot raw d,
            v.active,
          );
        })
      ]

  lookup-clear_shutdown :
      (other : String) (d : Dict Shutdown)
      → str_eq other "" ≡ false
      → lookup slot (clear_shutdown other d).0 ≡ (if str_eq other slot then none else lookup slot d)
  unfolding clear_shutdown
  lookup-clear_shutdown other d named = elim (Option-cases (lookup other d)) [
    | inl e ↦ rw (named, e, clear_shutdown) (ground (arith, e, eq_iff other slot))
    | inr (raw, e) ↦ rw (named, e, clear_shutdown) (lookup-erase other slot d)
  ]

  clear_shutdown-HasUniqueKeys :
      (other : String) (d : Dict Shutdown)
      → str_eq other "" ≡ false
      → HasUniqueKeys d
      → HasUniqueKeys (clear_shutdown other d).0
  unfolding clear_shutdown
  clear_shutdown-HasUniqueKeys other d named h = elim (Option-cases (lookup other d)) [
    | inl e ↦ rw (named, e, clear_shutdown) h
    | inr (raw, e) ↦ rw (named, e, clear_shutdown) (erase-HasUniqueKeys other d h)
  ]

  clear-IsListed :
      (other : String) (d : Dict Shutdown) (u : ℕ)
      → IsListed d u
      → IsListed (clear_shutdown other d).0 (if str_eq other slot then 0 else u)
  unfolding is_shutdown_active get_shutdown_info info_of
  clear-IsListed other d u v = elim (Bool-cases (str_eq other "")) [
    | inl e ↦
        unfold clear_shutdown in
        record {
          unique = rw e v.unique;
          active =
              rw e (ground (arith, v.active, eq_iff other slot, eq_iff other "", eq_iff slot ""));
        }
    | inr e ↦ record {
      unique = clear_shutdown-HasUniqueKeys other d e v.unique;
      active =
          rw (lookup-clear_shutdown other d e)
            (ground (arith, v.active, e, eq_iff other slot, eq_iff other "", eq_iff slot ""));
    }
  ]

  empty-IsListed : IsListed [] 0
  unfolding is_shutdown_active get_shutdown_info info_of lookup
  empty-IsListed = record { unique = tt; active = ground arith }

  kept-active :
      (now : ℕ) (raw : Option Shutdown)
      → now ≤ t
      → is_there (info_of duration t (if_kept (λ e. not (is_over duration now e)) raw))
        ≡ is_there (info_of duration t raw)
  unfolding info_of is_over
  kept-active now none le = refl
  kept-active now (some raw) le = ground arith

  purged-active :
      (now : ℕ) (d : Dict Shutdown)
      → HasUniqueKeys d
      → now ≤ t
      → is_shutdown_active duration t slot (purge_expired duration now d).0
        ≡ is_shutdown_active duration t slot d
  unfolding purge_expired is_shutdown_active get_shutdown_info
  purged-active now d u le = ground (
    arith,
    ap (λ o. is_there (info_of duration t o))
        (lookup-keep (λ raw. not (is_over duration now raw)) slot d u),
    kept-active now (lookup slot d) le,
  )

  purge-IsListed :
      (now : ℕ) (d : Dict Shutdown) (u : ℕ)
      → now ≤ t
      → IsListed d u
      → IsListed (purge_expired duration now d).0 u
  unfolding purge_expired
  purge-IsListed now d u le v =
      let p : Shutdown → Bool = λ raw. not (is_over duration now raw) in
      record {
        unique = keep-HasUniqueKeys p d v.unique;
        active = purged-active now d v.unique le ∙ v.active;
      }

  run-IsListed :
      (ops : List ShutdownOp) (d : Dict Shutdown) (u : ℕ)
      → PurgedBy t ops
      → IsListed d u
      → IsListed (shutdown_run duration ops d) (rests_until duration slot u ops)
  unfolding shutdown_run shutdown_step clear_all_shutdowns
  run-IsListed [] d u h v = v
  run-IsListed (puts now other reason was last ∷ ops) d u h v =
      run-IsListed ops (or_same d (put_on_shutdown_list duration now other reason was last d))
        (if str_eq other "" then u else if str_eq other slot then now + duration else u) h
        (put-IsListed now other reason was last d u v)
  run-IsListed (lifts other ∷ ops) d u h v =
      run-IsListed ops (clear_shutdown other d).0 (if str_eq other slot then 0 else u) h
        (clear-IsListed other d u v)
  run-IsListed (lifts_all ∷ ops) d u h v = run-IsListed ops [] 0 h empty-IsListed
  run-IsListed (purges now ∷ ops) d u h v =
      run-IsListed ops (purge_expired duration now d).0 u h.1 (purge-IsListed now d u h.0 v)

-- Whatever is put on the empty list, lifted and purged, no purge later than the time asked for: the
-- account rests at that time exactly if it was put on the list less than the duration ago and was
-- not lifted since. Purges do not show, and neither do calls for an empty slot.
pub shutdown_run-rests :
    (duration t : ℕ) (slot : String) (ops : List ShutdownOp)
    → PurgedBy t ops
    → is_shutdown_active duration t slot (shutdown_run duration ops [])
      ≡ ltb t (rests_until duration slot 0 ops)
shutdown_run-rests duration t slot ops h =
    (run-IsListed duration t slot ops [] 0 h (empty-IsListed duration t slot)).active
