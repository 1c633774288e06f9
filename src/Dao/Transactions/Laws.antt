-- ===== src/Dao/Transactions/Laws.antt =====
-- A transaction from `BeginTransaction` to `Commit` or `Rollback`.
use j7f.Base.{
  suc, List, if◌then◌else◌, ℕ, ◌≡◌, refl, false, [], ◌∷◌, Option, ◌⊎◌, inl, inr, Bool-cases,
}
use j7f.Base.Int.{ℤ, pos, eqb_ℤ, ltb_ℤ}
use j7f.Dao.{DaoError, Outcome, returned, failed}
use j7f.Dao.Transactions.{
  Event, timer_stopped, Context, timer_started, committed, rolled_back, max_runtime,
  bounded_runtime, commit, rollback,
}

-- The run time of a transaction is never more than a second, and never zero.
bounded_runtime_le :
    (t : ℤ)
    → (ltb_ℤ max_runtime (bounded_runtime t) ≡ false) × (eqb_ℤ (bounded_runtime t) (pos 0) ≡ false)
unfolding bounded_runtime
bounded_runtime_le t = elim (Bool-cases (eqb_ℤ t (pos 0))) [
  | inl e ↦ rw e (refl, refl)
  | inr e ↦ elim (Bool-cases (ltb_ℤ max_runtime t)) [
    | inl f ↦ rw (e, f) (refl, refl)
    | inr f ↦ rw (e, f) (f, e)
  ]
]

-- A run time of zero or of more than a second is a second.
abbrev pub within_second : ℤ → ℤ
within_second t =
    if eqb_ℤ t (pos 0)
    then pos 1000000000
    else if ltb_ℤ (pos 1000000000) t
    then pos 1000000000
    else t

-- How a transaction begins and ends, by the driver's answer.
abbrev pub IsFinished :
    {Tx : Type 0} → (Tx → Option DaoError) → Outcome (Context Tx) → Tx ⊎ DaoError → Type 0
IsFinished {Tx} close r (inl tx) =
    (begun : Context Tx) × (r ≡ returned begun)
    × (commit close begun ≡ (committed tx ∷ [], returned (close tx)))
    × (rollback close begun ≡ (rolled_back tx ∷ [], returned (close tx)))
IsFinished close r (inr e) = r ≡ failed e

abbrev pub stops : {Tx : Type 0} → List (Event Tx) → ℕ
stops [] = 0
stops (timer_stopped timer ∷ es) = suc (stops es)
stops (timer_started timer runtime ∷ es) = stops es
stops (committed tx ∷ es) = stops es
stops (rolled_back tx ∷ es) = stops es
