-- ===== src/Subagents/Races.antt =====
-- The worker of a subagent against a cancel, a timeout and a failure of its scheduler, which write
-- the same result (executor.py).
use deer_seek_backend.Prelude.{
  ℕ, ◌≡◌, ◌∙◌, refl, arith, String, Bool, true, false, Option, some, List, Eq, Bool-cases, inl, inr,
}
use deer_seek_backend.Subagents.{
  Status, completed, failed, cancelled, timed_out, is_terminal, Result, Update, no_update,
  write_terminal, try_set_terminal, set_terminal,
}
use deer_seek_backend.Subagents.Worker.{
  AiMessage, Message, Item, chunk, ended, raised, Phase, streaming, capture, last_message,
  cancelled_by_user, completion, failure, worker_step,
}
use deer_seek_backend.Subagents.Tasks.{time_out, fail, cancel_requested}

module _ {M U : Type 0} where
  -- What a terminal status fixes.
  pub record Frozen (r s : Result M U) : Type 0 where
    pub status : s.status ≡ r.status
    pub result : s.result ≡ r.result
    pub error : s.error ≡ r.error
    pub completed_at : s.completed_at ≡ r.completed_at
    pub token_usage_records : s.token_usage_records ≡ r.token_usage_records

  -- Captured messages and the cancel event are not among it.
  Frozen-fields :
      (r : Result M U) (ms : List M) (stop : Bool)
      → Frozen r (record r { ai_messages = ms; cancel_event = stop })
  Frozen-fields r ms stop = record {
    status = refl;
    result = refl;
    error = refl;
    completed_at = refl;
    token_usage_records = refl;
  }

  Frozen-refl : (r : Result M U) → Frozen r r
  Frozen-refl r = Frozen-fields r r.ai_messages r.cancel_event

  Frozen-trans : {r s t : Result M U} → Frozen r s → Frozen s t → Frozen r t
  Frozen-trans f g = record {
    status = g.status ∙ f.status;
    result = g.result ∙ f.result;
    error = g.error ∙ f.error;
    completed_at = g.completed_at ∙ f.completed_at;
    token_usage_records = g.token_usage_records ∙ f.token_usage_records;
  }

  pub set_terminal_late :
      (now : ℕ) (s : Status) (u : Update M U) (r : Result M U)
      → is_terminal r.status ≡ true
      → set_terminal now s u r ≡ r
  unfolding set_terminal try_set_terminal
  set_terminal_late now s u r late = ground arith

  late-Frozen :
      (now : ℕ) (s : Status) (u : Update M U) (r : Result M U)
      → is_terminal r.status ≡ true
      → Frozen r (set_terminal now s u r)
  late-Frozen now s u r late = rw (set_terminal_late now s u r late) (Frozen-refl r)

  pub set_terminal_first :
      (now : ℕ) (s : Status) (u : Update M U) (r : Result M U)
      → is_terminal s ≡ true
      → is_terminal r.status ≡ false
      → set_terminal now s u r ≡ write_terminal now s u r
  unfolding set_terminal try_set_terminal
  set_terminal_first now s u r final early = ground arith

  pub set_terminal-is_terminal :
      (now : ℕ) (s : Status) (u : Update M U) (r : Result M U)
      → is_terminal s ≡ true
      → is_terminal (set_terminal now s u r).status ≡ true
  unfolding set_terminal try_set_terminal write_terminal
  set_terminal-is_terminal now s u r final = ground arith

pub record World (J U : Type 0) : Type 0 where
  pub phase : Phase J
  pub result : Result (AiMessage J) U

module _ {J U : Type 0} ⦃e : Eq (AiMessage J)⦄ where
  abbrev pub after_work : ℕ → Item J U → Option (List (Message J)) → World J U → World J U
  after_work now i final w =
      let (phase, r) = worker_step now i final w.result in record { phase = phase; result = r }

  pub data Step (w : World J U) : World J U → Type 0 where
    works :
        (now : ℕ) (i : Item J U) (final : Option (List (Message J)))
        → w.phase ≡ streaming final
        → Step w (after_work now i final w)
    cancels : Step w (record w { result = cancel_requested w.result })
    times_out :
        (now : ℕ) (message : String) → Step w (record w { result = time_out now message w.result })
    fails : (now : ℕ) (error : String) → Step w (record w { result = fail now error w.result })

  pub data Reach (w : World J U) : World J U → Type 0 where
    here : Reach w w
    next : {u v : World J U} → Reach w u → Step u v → Reach w v

  worker_step-Frozen :
      (now : ℕ) (i : Item J U) (final : Option (List (Message J))) (r : Result (AiMessage J) U)
      → is_terminal r.status ≡ true
      → Frozen r (worker_step now i final r).1
  unfolding worker_step
  worker_step-Frozen now (chunk ms usage) final r late = elim (Bool-cases r.cancel_event) [
    | inl stop ↦ rw stop (
        late-Frozen now cancelled (cancelled_by_user usage) (record r { cancel_event = true }) late)
    | inr on ↦ rw on (
        Frozen-fields (record r { cancel_event = false }) (capture (last_message ms) r.ai_messages)
          false)
  ]
  worker_step-Frozen now (ended usage) final r late =
      late-Frozen now completed (completion final usage) r late
  worker_step-Frozen now (raised error usage) final r late =
      late-Frozen now failed (failure error usage) r late

  Step-Frozen :
      {u v : World J U} → Step u v → is_terminal u.result.status ≡ true → Frozen u.result v.result
  unfolding time_out fail
  Step-Frozen {u} (works now i final p) late = worker_step-Frozen now i final u.result late
  Step-Frozen {u} cancels late = Frozen-fields u.result u.result.ai_messages true
  Step-Frozen {u} (times_out now message) late =
      rw
        (set_terminal_late now timed_out (record no_update { error = some message })
          (cancel_requested u.result) late)
        (Frozen-fields u.result u.result.ai_messages true)
  Step-Frozen {u} (fails now error) late =
      rw (set_terminal_late now failed (record no_update { error = some error }) u.result late)
        (Frozen-refl u.result)

  -- The first terminal status wins: whoever writes it, and whatever the worker, a cancel, a timeout
  -- and a failure do later in whatever order, the status, the result, the error, the time and the
  -- token usage stay.
  pub first_terminal_wins :
      {u v : World J U} → Reach u v → is_terminal u.result.status ≡ true → Frozen u.result v.result
  first_terminal_wins {u} here late = Frozen-refl u.result
  first_terminal_wins {u} (next {u = v} r st) late =
      let before = first_terminal_wins r late in
      let now_late : is_terminal v.result.status ≡ true = rw before.status late in
      Frozen-trans before (Step-Frozen st now_late)
