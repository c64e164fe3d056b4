-- ===== src/Login.antt =====
-- app/gateway/routers/auth.py: the limit on failed logins from an address. The table of one worker is
-- a dictionary from addresses, of any type `K` with an equality, to the failures and the time until
-- which the address is locked. A call reads the clock once.
pub mod Bounds
pub mod Addresses
pub mod Lockout
use deer_seek_backend.Prelude.{
  ℕ, suc, ◌+◌, ◌/◌, Bool, true, false, not, ◌&&◌, Option, none, some, List, [], ◌∷◌, map, Eq, keep,
  take, length, leb, ltb, sorted, if◌then◌else◌,
}
use deer_seek_backend.Dict.{Dict, get, put, pop}

-- The failures, and the time until which the address is locked.
abbrev pub Record : Type 0
Record = ℕ × ℕ

abbrev pub Attempts : Type 0 → Type 0
Attempts K = Dict K Record

abbrev pub max_login_attempts : ℕ
max_login_attempts = 5

abbrev pub lockout_seconds : ℕ
lockout_seconds = 300

abbrev pub max_tracked_ips : ℕ
max_tracked_ips = 10000

-- A lock that is over.
unfoldable pub is_expired : ℕ → Record → Bool
is_expired now (n, until) = leb max_login_attempts n && leb until now

unfoldable pub next_record : ℕ → Option Record → Record
next_record now none = (1, 0)
next_record now (some (n, until)) =
    (suc n, if leb max_login_attempts (suc n) then now + lockout_seconds else 0)

module _ {K : Type 0} ⦃e : Eq K⦄ where
  unfoldable pub check_record : ℕ → K → Option Record → Attempts K → Option (Attempts K)
  check_record now ip none t = some t
  check_record now ip (some (n, until)) t =
      if leb max_login_attempts n then if ltb now until then none else some (pop t ip) else some t

  -- `_check_rate_limit`: `none` is the answer 429.
  unfoldable pub check_rate_limit : ℕ → K → Attempts K → Option (Attempts K)
  unfolding check_record
  check_rate_limit now ip t = check_record now ip (get t ip) t

  unfoldable pub pop_all : List K → Attempts K → Attempts K
  pop_all [] t = t
  pop_all (k ∷ ks) t = pop_all ks (pop t k)

  abbrev pub by_time : Attempts K → Attempts K
  by_time = sorted (λ e. e.1.1)

  -- The half with the earliest times goes.
  unfoldable pub drop_half : Attempts K → Attempts K
  unfolding pop_all
  drop_half t = pop_all (map (λ e. e.0) (take (length (by_time t) / 2) (by_time t))) t

  abbrev pub drop_expired : ℕ → Attempts K → Attempts K
  drop_expired now t = keep (λ e. not (is_expired now e.1)) t

  unfoldable pub halve_if_full : Attempts K → Attempts K
  unfolding drop_half
  halve_if_full t = if leb max_tracked_ips (length t) then drop_half t else t

  unfoldable pub make_room : ℕ → Attempts K → Attempts K
  unfolding halve_if_full
  make_room now t = if leb max_tracked_ips (length t) then halve_if_full (drop_expired now t) else t

  -- `_record_login_failure`
  unfoldable pub record_login_failure : ℕ → K → Attempts K → Attempts K
  unfolding make_room next_record
  record_login_failure now ip t =
      let room = make_room now t in put room ip (next_record now (get room ip))

  abbrev pub record_login_success : K → Attempts K → Attempts K
  record_login_success ip t = pop t ip

-- `login_local` is two steps, between which the password is checked: other calls may come in.
pub data Op (K : Type 0) : Type 0 where
  checks fails : ℕ → K → Op K
  succeeds : K → Op K

module _ {K : Type 0} ⦃e : Eq K⦄ where
  unfoldable pub kept_if_rejected : Option (Attempts K) → Attempts K → Attempts K
  kept_if_rejected none t = t
  kept_if_rejected (some t') t = t'

  unfoldable pub step : Op K → Attempts K → Attempts K
  unfolding check_rate_limit record_login_failure kept_if_rejected
  step (checks now ip) t = kept_if_rejected (check_rate_limit now ip t) t
  step (fails now ip) t = record_login_failure now ip t
  step (succeeds ip) t = record_login_success ip t

  unfoldable pub run : List (Op K) → Attempts K → Attempts K
  unfolding step
  run [] t = t
  run (op ∷ ops) t = run ops (step op t)
