-- ===== src/Tests/LoginTests.antt =====
-- Runs of the limit on failed logins (app/gateway/routers/auth.py).
use deer_seek_backend.Prelude.{
  ◌+◌, ◌≤◌, ◌≡◌, refl, arith, String, ◌&&◌, none, List, [], ◌∷◌, length, leb, ltb, string_eq,
}
use deer_seek_backend.Dict.{get}
use deer_seek_backend.Login.{
  Attempts, max_login_attempts, lockout_seconds, max_tracked_ips, Op, checks, fails, succeeds, run,
}
use deer_seek_backend.Login.Bounds.{run-bounded}
use deer_seek_backend.Login.Addresses.{calls_of}
use deer_seek_backend.Login.Lockout.{failures, last_failure, is_rejected, locked_out}

-- The address "a" guesses five times, each time after the check of its login, while "b" logs in; the
-- sixth guess is rejected.
abbrev calls : List (Op String)
calls =
    checks 9 "a"
    ∷ fails 10 "a"
    ∷ checks 10 "b"
    ∷ fails 11 "b"
    ∷ checks 11 "a"
    ∷ fails 12 "a"
    ∷ checks 12 "b"
    ∷ succeeds "b"
    ∷ checks 12 "a"
    ∷ fails 13 "a"
    ∷ checks 14 "a"
    ∷ fails 15 "a"
    ∷ checks 15 "a"
    ∷ fails 16 "a"
    ∷ checks 200 "a"
    ∷ []

abbrev no_attempts : Attempts String
no_attempts = []

run-bounded_example : length (run calls no_attempts) ≤ max_tracked_ips
run-bounded_example = run-bounded calls no_attempts (omega arith)

unknown : get no_attempts "a" ≡ none
unfolding get
unknown = refl

locked_out_example : is_rejected 300 "a" (run calls no_attempts) ≡ (
    leb max_login_attempts (failures (calls_of "a" calls))
    && ltb 300 (last_failure 0 (calls_of "a" calls) + lockout_seconds))
locked_out_example =
    locked_out "a" 300 calls no_attempts (omega arith) unknown
      (refl, (refl, (refl, (refl, (refl, (refl, tt))))))

-- Five failures, the last of them at 16.
guesses : (failures (calls_of "a" calls) ≡ 5) × (last_failure 0 (calls_of "a" calls) ≡ 16)
unfolding failures last_failure
guesses = (refl, refl)
