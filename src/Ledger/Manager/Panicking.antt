-- ===== src/Ledger/Manager/Panicking.antt =====
-- When the dispatcher of src/ledger_manager/mod.rs panics.
use prism_rust_vivek.Prelude.{
  ℕ, ◌≡◌, ◌≢◌, ◌↔◌, ◌⊎◌, refl, false, List, [], ◌∷◌, ◌++◌, arith, Bool-cases, inl, inr,
}
use prism_rust_vivek.Ledger.Transaction.{Address}
use prism_rust_vivek.Ledger.Utxo.{Utxo}
use prism_rust_vivek.Ledger.Manager.{
  LedgerState, Job, touched, is_disjoint, dispatch, Step, drain_one, drained, wait_one, dispatched,
  handed, taken, worked, notified, paid, Reach, at_start, received, stepped, Panics,
  unknown_drained, unknown_awaited, no_sender, no_receiver,
}
use prism_rust_vivek.Ledger.Manager.Serial.{finish-some}

List-cases : (xs : List Job) → (xs ≡ []) ⊎ ((j : Job) × (jobs : List Job) × (xs ≡ j ∷ jobs))
List-cases [] = inl refl
List-cases (j ∷ jobs) = inr (j, jobs, refl)

-- No worker has a job, or has had one.
IsUntouched : LedgerState → Type 0
IsUntouched s = (s.working ≡ []) × (s.applied ≡ []) × (s.notification_chan ≡ [])

no_middle {ℓ} :
    {A : Type ℓ} (xs before after : List A) (a : A) → xs ≡ [] → xs ≡ before ++ a ∷ after → ⊥
no_middle xs [] after a e f = cc
no_middle xs (b ∷ before) after a e f = cc

module _ (address_of : List ℕ → Address) (buffer_size num_workers : ℕ)
    (none_left : num_workers ≡ 0) where
  Step-IsUntouched :
      {s t : LedgerState}
      → Step address_of buffer_size num_workers s t
      → IsUntouched s
      → IsUntouched t
  unfolding IsUntouched dispatch
  Step-IsUntouched (drain_one j jobs h rest e f next run) (w, a, n) = cc
  Step-IsUntouched (drained j jobs e f g) (w, a, n) = (w, a, n)
  Step-IsUntouched (wait_one j jobs h rest e f hot next run) (w, a, n) = cc
  Step-IsUntouched (dispatched j jobs e f cold room) (w, a, n) = (w, a, n)
  Step-IsUntouched (handed j jobs e f cold none_held empty free) (w, a, n) =
      absurd (omega (arith, none_left))
  Step-IsUntouched (taken j rest e few) (w, a, n) = absurd (omega (arith, none_left))
  Step-IsUntouched {s} (worked j before after e) (w, a, n) =
      absurd (no_middle s.working before after j w e)
  Step-IsUntouched {s} (notified h before after e) (w, a, n) =
      absurd (no_middle s.applied before after h a e)
  Step-IsUntouched (paid d rest e) (w, a, n) = (w, a, n)

  Reach-IsUntouched :
      {db : Utxo} {s : LedgerState} {all_jobs : List Job}
      → Reach address_of buffer_size num_workers db s all_jobs
      → IsUntouched s
  unfolding IsUntouched
  Reach-IsUntouched at_start = (refl, refl, refl)
  Reach-IsUntouched (received diff r idle) = Reach-IsUntouched r
  Reach-IsUntouched (stepped r step) = Step-IsUntouched step (Reach-IsUntouched r)

  no_workers-Panics :
      {db : Utxo} {s : LedgerState} {all_jobs : List Job}
      → Reach address_of buffer_size num_workers db s all_jobs
      → s.jobs ≢ []
      → s.draining ≡ false
      → Panics address_of buffer_size num_workers s
  unfolding IsUntouched
  no_workers-Panics {s = s} r some_job f = elim (List-cases s.jobs) [
    | inl e ↦ absurd (some_job e)
    | inr (j, jobs, e) ↦ elim (Bool-cases (is_disjoint s.scoreboard (touched j))) [
      | inl cold ↦ no_receiver j jobs e f cold none_left
      | inr hot ↦ no_sender j jobs e f hot (Reach-IsUntouched r).2 none_left
    ]
  ]

module _ (address_of : List ℕ → Address) (buffer_size num_workers : ℕ) (db : Utxo) where
  needs_no_workers :
      {s : LedgerState} {all_jobs : List Job}
      → Reach address_of buffer_size num_workers db s all_jobs
      → Panics address_of buffer_size num_workers s
      → (num_workers ≡ 0) × (s.jobs ≢ []) × (s.draining ≡ false)
  needs_no_workers r (unknown_drained j jobs h rest e f next bad) =
      absurd (finish-some address_of buffer_size num_workers db h rest r next bad)
  needs_no_workers r (unknown_awaited j jobs h rest e f hot next bad) =
      absurd (finish-some address_of buffer_size num_workers db h rest r next bad)
  needs_no_workers r (no_sender j jobs e f hot next none_left) = (none_left, λ g. cc (e, g), f)
  needs_no_workers r (no_receiver j jobs e f cold none_left) = (none_left, λ g. cc (e, g), f)

  -- In a state that the threads reach, an `unwrap` of the dispatcher fails (the look-up of the coins of
  -- a transaction that is notified, the `recv` of a notification, or the `send` of a job) exactly if
  -- there are no workers and the dispatcher is past draining, with a job to send. It is assumed that
  -- workers do not panic themselves.
  pub dispatcher-Panics_iff :
      {s : LedgerState} {all_jobs : List Job}
      → Reach address_of buffer_size num_workers db s all_jobs
      → Panics address_of buffer_size num_workers s
        ↔ ((num_workers ≡ 0) × (s.jobs ≢ []) × (s.draining ≡ false))
  dispatcher-Panics_iff r = (
    needs_no_workers r,
    λ (none_left, some_job, f).
        no_workers-Panics address_of buffer_size num_workers none_left r some_job f,
  )
