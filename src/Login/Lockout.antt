-- ===== src/Login/Lockout.antt =====
-- The lock after too many failed logins (app/gateway/routers/auth.py).
use deer_seek_backend.Prelude.{
  ℕ, zero, suc, ◌+◌, ◌≤◌, ◌≡◌, refl, ap, subst, ◌∙◌, arith, inl, inr, Bool-cases, Bool, true, false,
  ◌&&◌, Option, none, some, List, [], ◌∷◌, Eq, ◌==◌, length, leb, ltb, if◌then◌else◌,
}
use deer_seek_backend.Dict.{get}
use deer_seek_backend.Login.{
  Record, Attempts, max_login_attempts, lockout_seconds, max_tracked_ips, check_rate_limit,
  check_record, next_record, Op, checks, fails, succeeds, step, run,
}
use deer_seek_backend.Login.Addresses.{
  address, calls_of, length-step, get_step_own, get_step_other, after_check, after_call,
}

-- How often the calls say that a login of their address failed.
unfoldable pub failures : {K : Type 0} → List (Op K) → ℕ
failures [] = 0
failures (fails now ip ∷ ops) = suc (failures ops)
failures (checks now ip ∷ ops) = failures ops
failures (succeeds ip ∷ ops) = failures ops

-- The time of the last failure, where there is one.
unfoldable pub last_failure : {K : Type 0} → ℕ → List (Op K) → ℕ
last_failure last [] = last
last_failure last (fails now ip ∷ ops) = last_failure now ops
last_failure last (checks now ip ∷ ops) = last_failure last ops
last_failure last (succeeds ip ∷ ops) = last_failure last ops

-- Calls after `n` failures, the last of them at `last`: no login succeeds, and none starts between the
-- end of a lock and the next failure. Before the fifth failure logins start whenever they like.
abbrev pub NoneGetsIn : {K : Type 0} → ℕ → ℕ → List (Op K) → Type 0
NoneGetsIn n last [] = Unit
NoneGetsIn n last (fails now ip ∷ ops) = NoneGetsIn (suc n) now ops
NoneGetsIn n last (checks now ip ∷ ops) =
    ((leb max_login_attempts n && leb (last + lockout_seconds) now) ≡ false) × NoneGetsIn n last ops
NoneGetsIn n last (succeeds ip ∷ ops) = ⊥

-- The record of an address after some failures.
record_after : ℕ → ℕ → Option Record
record_after zero last = none
record_after (suc n) last =
    some (suc n, if leb max_login_attempts (suc n) then last + lockout_seconds else 0)

fails_again :
    (n last now : ℕ) → some (next_record now (record_after n last)) ≡ record_after (suc n) now
unfolding record_after next_record
fails_again zero last now = refl
fails_again (suc n) last now = refl

checks_again :
    (n last now : ℕ)
    → (leb max_login_attempts n && leb (last + lockout_seconds) now) ≡ false
    → after_check now (record_after n last) ≡ record_after n last
unfolding record_after after_check
checks_again zero last now h = refl
checks_again (suc n) last now h = ground (arith, h)

module _ {K : Type 0} ⦃e : Eq K⦄ where
  unfoldable pub is_rejected : ℕ → K → Attempts K → Bool
  unfolding check_rate_limit
  is_rejected now ip t = elim (check_rate_limit now ip t) [ none ↦ true | some t' ↦ false ]

  -- One own call.
  get_step_failing :
      (op : Op K) (ops : List (Op K)) (n last : ℕ) (t : Attempts K) (r : Option Record)
      → r ≡ record_after n last
      → NoneGetsIn n last (op ∷ ops)
      → (m : ℕ) × (l : ℕ) × (after_call op r ≡ record_after m l)
        × NoneGetsIn m l ops
        × (failures ops + m ≡ failures (op ∷ ops) + n)
        × (last_failure l ops ≡ last_failure last (op ∷ ops))
  unfolding after_call failures last_failure
  get_step_failing (checks now ip) ops n last t r before (waits, h) =
      (n, last, ap (after_check now) before ∙ checks_again n last now waits, h, refl, refl)
  get_step_failing (fails now ip) ops n last t r before h = (
    suc n,
    now,
    ap (λ x. some (next_record now x)) before ∙ fails_again n last now,
    h,
    omega arith,
    refl,
  )
  get_step_failing (succeeds ip) ops n last t r before h = absurd h

  own_calls :
      (op : Op K) (ip : K) (ops : List (Op K))
      → (address op == ip) ≡ true
      → calls_of ip (op ∷ ops) ≡ op ∷ calls_of ip ops
  own_calls op ip ops own = rw own refl

  other_calls :
      (op : Op K) (ip : K) (ops : List (Op K))
      → (address op == ip) ≡ false
      → calls_of ip (op ∷ ops) ≡ calls_of ip ops
  other_calls op ip ops other = rw other refl

  get_run_failing :
      (ip : K) (n last : ℕ) (ops : List (Op K)) (t : Attempts K)
      → length t + length ops ≤ max_tracked_ips
      → get t ip ≡ record_after n last
      → NoneGetsIn n last (calls_of ip ops)
      → get (run ops t) ip
        ≡ record_after (failures (calls_of ip ops) + n) (last_failure last (calls_of ip ops))
  unfolding run
  get_run_failing ip n last [] t room before h =
      before ∙ unfold failures last_failure in ap (λ m. record_after m last) (omega arith)
  get_run_failing ip n last (op ∷ ops) t room before h = elim (Bool-cases (address op == ip)) [
    | inr other ↦ rw other (
        get_run_failing ip n last ops (step op t) (omega (arith, length-step op t (omega arith)))
          (get_step_other op ip t (omega arith) other ∙ before)
          (subst (NoneGetsIn n last) (other_calls op ip ops other) h))
    | inl own ↦
        let mine = calls_of ip ops in
        let (m, l, record_of, rest, count, last_of) =
          get_step_failing op mine n last t (get t ip) before
            (subst (NoneGetsIn n last) (own_calls op ip ops own) h) in
        rw own (
          get_run_failing ip m l ops (step op t) (omega (arith, length-step op t (omega arith)))
            (get_step_own op ip t (omega arith) own ∙ record_of) rest
          ∙ ap (λ k. record_after k (last_failure l mine)) count
          ∙ ap (record_after (failures (op ∷ mine) + n)) last_of)
  ]

  rejected_after :
      (now : ℕ) (ip : K) (n last : ℕ) (t : Attempts K)
      → get t ip ≡ record_after n last
      → is_rejected now ip t ≡ (leb max_login_attempts n && ltb now (last + lockout_seconds))
  unfolding is_rejected check_rate_limit check_record record_after
  rejected_after now ip zero last t h = ground (arith, h)
  rejected_after now ip (suc n) last t h = ground (arith, h)

  -- Let an address be unknown, and then run any calls for it and for others, for which the table has
  -- room, in which no login of this address succeeds and none starts after a lock of it is over. Then its
  -- next login is rejected exactly if its logins failed at least five times so far and the last failure
  -- is less than 300 seconds ago, however often logins were tried in between, rejected ones included.
  pub locked_out :
      (ip : K) (now : ℕ) (ops : List (Op K)) (t : Attempts K)
      → length t + length ops ≤ max_tracked_ips
      → get t ip ≡ none
      → NoneGetsIn 0 0 (calls_of ip ops)
      → is_rejected now ip (run ops t) ≡ (
          leb max_login_attempts (failures (calls_of ip ops))
          && ltb now (last_failure 0 (calls_of ip ops) + lockout_seconds))
  unfolding record_after
  locked_out ip now ops t room unknown h =
      rejected_after now ip (failures (calls_of ip ops)) (last_failure 0 (calls_of ip ops))
        (run ops t)
        (get_run_failing ip 0 0 ops t room unknown h
          ∙ ap (λ n. record_after n (last_failure 0 (calls_of ip ops))) (omega arith))
