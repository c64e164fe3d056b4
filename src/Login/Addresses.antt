-- ===== src/Login/Addresses.antt =====
-- The failed logins of one address among those of others (app/gateway/routers/auth.py).
use deer_seek_backend.Prelude.{
  ℕ, suc, ◌+◌, ◌≤◌, ◌<◌, ◌≡◌, refl, sym, ap, ◌∙◌, arith, true, false, not, ◌&&◌, Option, none, some,
  List, [], ◌∷◌, Eq, ◌==◌, keep, length, leb, ltb, if◌then◌else◌, Bool-cases, beq_refl, inl, inr,
}
use deer_seek_backend.Dict.{get}
use deer_seek_backend.Dict.Laws.{get-put, get-pop, length-put, length-pop-le}
use deer_seek_backend.Login.{
  Record, Attempts, max_login_attempts, max_tracked_ips, check_rate_limit, check_record, make_room,
  record_login_failure, next_record, Op, checks, fails, succeeds, kept_if_rejected, step, run,
}

unfoldable pub after_check : ℕ → Option Record → Option Record
after_check now none = none
after_check now (some (n, until)) =
    if leb max_login_attempts n && not (ltb now until) then none else some (n, until)

-- What a call does to the record of its address.
unfoldable pub after_call : {K : Type 0} → Op K → Option Record → Option Record
unfolding after_check
after_call (checks now ip) r = after_check now r
after_call (fails now ip) r = some (next_record now r)
after_call (succeeds ip) r = none

module _ {K : Type 0} ⦃e : Eq K⦄ where
  abbrev pub address : Op K → K
  address (checks now ip) = ip
  address (fails now ip) = ip
  address (succeeds ip) = ip

  -- The calls for one address.
  abbrev pub calls_of : K → List (Op K) → List (Op K)
  calls_of ip = keep (λ op. address op == ip)

  get-check :
      (now : ℕ) (ip j : K) (r : Option Record) (t : Attempts K)
      → get t ip ≡ r
      → get (kept_if_rejected (check_record now ip r t) t) j
        ≡ (if ip == j then after_check now r else get t j)
  unfolding kept_if_rejected check_record after_check
  get-check now ip j none t h = ground (arith, h, e.beq_iff ip j)
  get-check now ip j (some (n, until)) t h = ground (arith, h, get-pop t ip j, e.beq_iff ip j)

  pub make_room_below :
      (now : ℕ) (t : Attempts K) → length t < max_tracked_ips → make_room now t ≡ t
  unfolding make_room
  make_room_below now t h = ground arith

  get-step :
      (op : Op K) (j : K) (t : Attempts K)
      → length t < max_tracked_ips
      → get (step op t) j
        ≡ (if address op == j then after_call op (get t (address op)) else get t j)
  unfolding step check_rate_limit record_login_failure after_call
  get-step (checks now ip) j t h = get-check now ip j (get t ip) t refl
  get-step (fails now ip) j t h =
      rw (make_room_below now t h) (get-put t ip j (next_record now (get t ip)))
  get-step (succeeds ip) j t h = get-pop t ip j

  pub length-step :
      (op : Op K) (t : Attempts K)
      → length t < max_tracked_ips
      → length (step op t) ≤ suc (length t)
  unfolding step check_rate_limit check_record record_login_failure kept_if_rejected
  length-step (checks now ip) t h = ground (arith, length-pop-le t ip)
  length-step (fails now ip) t h =
      rw (make_room_below now t h) (ground (arith, length-put t ip (next_record now (get t ip))))
  length-step (succeeds ip) t h = omega (arith, length-pop-le t ip)

  pub get_step_own :
      (op : Op K) (ip : K) (t : Attempts K)
      → length t < max_tracked_ips
      → (address op == ip) ≡ true
      → get (step op t) ip ≡ after_call op (get t ip)
  get_step_own op ip t h own =
      let same = (e.beq_iff (address op) ip).0 own in
      ap (get (step op t)) (sym same)
      ∙ get-step op (address op) t h
      ∙ rw (beq_refl (address op)) (ap (λ k. after_call op (get t k)) same)

  pub get_step_other :
      (op : Op K) (ip : K) (t : Attempts K)
      → length t < max_tracked_ips
      → (address op == ip) ≡ false
      → get (step op t) ip ≡ get t ip
  get_step_other op ip t h other = get-step op ip t h ∙ rw other refl

  get-run :
      (ip : K) (ops : List (Op K)) (t u : Attempts K)
      → length t + length ops ≤ max_tracked_ips
      → length u + length ops ≤ max_tracked_ips
      → get t ip ≡ get u ip
      → get (run ops t) ip ≡ get (run (calls_of ip ops) u) ip
  unfolding run
  get-run ip [] t u h k same = same
  get-run ip (op ∷ ops) t u h k same = elim (Bool-cases (address op == ip)) [
    | inl own ↦ rw own (
        get-run ip ops (step op t) (step op u) (omega (arith, length-step op t))
          (omega (arith, length-step op u))
          (get_step_own op ip t (omega arith) own
            ∙ ap (after_call op) same
            ∙ sym (get_step_own op ip u (omega arith) own)))
    | inr other ↦ rw other (
        get-run ip ops (step op t) u (omega (arith, length-step op t)) (omega arith)
          (get_step_other op ip t (omega arith) other ∙ same))
  ]

  -- As long as the table has room for all calls, the record of an address is what the calls for this
  -- address alone would leave: no call for another address touches it.
  own_calls_decide :
      (ip : K) (ops : List (Op K)) (t : Attempts K)
      → length t + length ops ≤ max_tracked_ips
      → get (run ops t) ip ≡ get (run (calls_of ip ops) t) ip
  own_calls_decide ip ops t h = get-run ip ops t t h h refl
