-- ===== src/Login/Bounds.antt =====
-- The size of the table of failed logins (app/gateway/routers/auth.py).
use deer_seek_backend.Prelude.{
  ℕ, suc, zero, ◌/◌, ◌≤◌, ◌<◌, ◌≡◌, sym, arith, Bool, true, not, List, [], ◌∷◌, map, Eq, ◌==◌, take,
  length, any, any-sorted, length-sorted, length-keep-le,
}
use deer_seek_backend.Dict.{get, pop}
use deer_seek_backend.Dict.Laws.{length-put, length-pop-le}
use deer_seek_backend.Login.{
  Attempts, max_tracked_ips, check_rate_limit, check_record, pop_all, by_time, drop_half,
  drop_expired, halve_if_full, make_room, record_login_failure, next_record, is_expired, Op, checks,
  fails, succeeds, kept_if_rejected, step, run,
}

module _ {K : Type 0} ⦃e : Eq K⦄ where
  length-pop-lt :
      (t : Attempts K) (k : K) → any (λ r. r.0 == k) t ≡ true → length (pop t k) < length t
  unfolding pop
  length-pop-lt [] k h = cc
  length-pop-lt ((j, r) ∷ t) k h = ground (arith, length-pop-lt t k, length-pop-le t k)

  length-pop_all-le : (ks : List K) (t : Attempts K) → length (pop_all ks t) ≤ length t
  unfolding pop_all
  length-pop_all-le [] t = omega arith
  length-pop_all-le (k ∷ ks) t = omega (arith, length-pop_all-le ks (pop t k), length-pop-le t k)

  -- Dropping the first entries of some order of the table makes it smaller.
  drop_first :
      (n : ℕ) (es t : Attempts K)
      → 0 < n
      → ((p : K × (ℕ × ℕ) → Bool) → any p es ≡ any p t)
      → length es ≡ length t
      → 0 < length t
      → length (pop_all (map (λ r. r.0) (take n es)) t) < length t
  unfolding pop_all
  drop_first zero es t h same len full = omega arith
  drop_first (suc n) [] t h same len full = omega arith
  drop_first (suc n) (r ∷ es) t h same len full =
      let there = sym (same (λ q. q.0 == r.0)) in
      ground (
        arith,
        there,
        e.beq_iff r.0 r.0,
        length-pop-lt t r.0,
        length-pop_all-le (map (λ q. q.0) (take n es)) (pop t r.0),
      )

  drop_half-lt : (t : Attempts K) → 1 < length t → length (drop_half t) < length t
  unfolding drop_half
  drop_half-lt t h =
      drop_first (length (by_time t) / 2) (by_time t) t
        (omega (arith, length-sorted (λ (x : K × (ℕ × ℕ)). x.1.1) t))
        (λ p. any-sorted (λ (x : K × (ℕ × ℕ)). x.1.1) p t)
        (length-sorted (λ (x : K × (ℕ × ℕ)). x.1.1) t) (omega arith)

  make_room-lt :
      (now : ℕ) (t : Attempts K)
      → length t ≤ max_tracked_ips
      → length (make_room now t) < max_tracked_ips
  unfolding make_room halve_if_full
  make_room-lt now t h = ground (
    arith,
    length-keep-le (λ (r : K × (ℕ × ℕ)). not (is_expired now r.1)) t,
    drop_half-lt (drop_expired now t),
  )

  step-bounded :
      (op : Op K) (t : Attempts K)
      → length t ≤ max_tracked_ips
      → length (step op t) ≤ max_tracked_ips
  unfolding step check_rate_limit check_record record_login_failure kept_if_rejected
  step-bounded (checks now ip) t h = ground (arith, length-pop-le t ip)
  step-bounded (fails now ip) t h =
      let room = make_room now t in
      ground (arith, length-put room ip (next_record now (get room ip)), make_room-lt now t h)
  step-bounded (succeeds ip) t h = omega (arith, length-pop-le t ip)

  -- However the calls interleave, a table of failed logins that is within its limit stays within it.
  pub run-bounded :
      (ops : List (Op K)) (t : Attempts K)
      → length t ≤ max_tracked_ips
      → length (run ops t) ≤ max_tracked_ips
  unfolding run
  run-bounded [] t h = h
  run-bounded (op ∷ ops) t h = run-bounded ops (step op t) (step-bounded op t h)
