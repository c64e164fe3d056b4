-- ===== src/ThreadState/Artifacts.antt =====
-- The artifacts of a thread after a number of updates (`merge_artifacts` of thread_state.py).
use deer_seek_backend.Prelude.{
  ◌≡◌, ◌∙◌, refl, sym, ap, String, true, false, Option, none, some, List, [], ◌∷◌, ◌++◌, string_eq,
  contains, dedupe, dedupe_from, append-nil, append_assoc, Bool-cases, inl, inr,
}
use deer_seek_backend.ThreadState.{merge_artifacts}

-- The state after the updates, one by one.
unfoldable pub merge_updates : List String → List (Option (List String)) → List String
unfolding merge_artifacts
merge_updates existing [] = existing
merge_updates existing (u ∷ us) = merge_updates (merge_artifacts (some existing) u) us

-- All that the updates write, in their order.
unfoldable pub all_written : List (Option (List String)) → List String
all_written [] = []
all_written (none ∷ us) = all_written us
all_written (some new ∷ us) = new ++ all_written us

dedupe_from_there :
    (x : String) (seen xs : List String)
    → contains x seen ≡ true
    → dedupe_from seen (x ∷ xs) ≡ dedupe_from seen xs
dedupe_from_there x seen xs h = rw (h, dedupe_from) refl

dedupe_from_first :
    (x : String) (seen xs : List String)
    → contains x seen ≡ false
    → dedupe_from seen (x ∷ xs) ≡ x ∷ dedupe_from (x ∷ seen) xs
dedupe_from_first x seen xs h = rw (h, dedupe_from) refl

dedupe_from-append :
    (seen xs ys : List String)
    → dedupe_from seen (dedupe_from seen xs ++ ys) ≡ dedupe_from seen (xs ++ ys)
dedupe_from-append seen [] ys = refl
dedupe_from-append seen (x ∷ xs) ys = elim (Bool-cases (contains x seen)) [
  | inl there ↦
      rw (dedupe_from_there x seen xs there, dedupe_from_there x seen (xs ++ ys) there)
        (dedupe_from-append seen xs ys)
  | inr first ↦
      rw
        (
          dedupe_from_first x seen xs first,
          dedupe_from_first x seen (xs ++ ys) first,
          dedupe_from_first x seen (dedupe_from (x ∷ seen) xs ++ ys) first,
        )
        (ap (λ zs. x ∷ zs) (dedupe_from-append (x ∷ seen) xs ys))
]

-- On artifacts without repetitions, updates that come one by one leave the same artifacts, in the
-- same order, as all that they write would at once: each once, at its first place.
pub merge_updates-dedupe :
    (xs : List String) (us : List (Option (List String)))
    → merge_updates (dedupe xs) us ≡ dedupe (xs ++ all_written us)
unfolding merge_updates all_written merge_artifacts
merge_updates-dedupe xs [] = ap dedupe (sym (append-nil xs))
merge_updates-dedupe xs (none ∷ us) = merge_updates-dedupe xs us
merge_updates-dedupe xs (some new ∷ us) =
    ap (λ s. merge_updates s us) (dedupe_from-append [] xs new)
    ∙ merge_updates-dedupe (xs ++ new) us
    ∙ ap dedupe (append_assoc xs new (all_written us))
