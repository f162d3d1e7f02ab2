-- ===== src/JobCentre/Handler/Delete.antt =====
-- 9-job-centre/main.go: `DeleteJob`.
use protohackers.Prelude.{
  ℕ, ◌≡◌, ◌≢◌, ◌⊎◌, inl, inr, Bool-cases, refl, sym, ap, ◌∙◌, false, Option, none, some, Bytes,
  ◌==◌, if◌then◌else◌, ok, err, ◌>>=◌,
}
use protohackers.JobCentre.Queues.{Job, JobQueues, remove, job_queue_not_found}
use protohackers.JobCentre.Queues.Push.{pending}
use protohackers.JobCentre.Queues.Remove.{IsWithout, remove_lem}
use protohackers.JobCentre.Handler.{
  Handler, no_job, set_progress, drop_job, delete_progress, after_remove, delete_job,
}
use protohackers.JobCentre.Handler.Safe.{
  IsSafe, IsReleased, released, released-IsSafe, if_same, if_other,
}

-- A job that waits is not in progress.
pub waiting-idle :
    (id : ℕ) (h : Handler)
    → IsSafe h
    → (j : Job) → pending h.queues id ≡ some j
    → (o : Option (Job × Bytes)) → h.in_progress id ≡ o
    → h.in_progress id ≡ none
waiting-idle id h v j w none e = e
waiting-idle id h v j w (some (k, c)) e = cc (sym w ∙ (v.held id k c e).1)

-- The job waited.
removed :
    (id : ℕ) (h : Handler) (q : JobQueues)
    → IsSafe h
    → h.in_progress id ≡ none
    → IsWithout id h.queues q
    → IsSafe (record h { queues = q }) × IsReleased id none h (record h { queues = q })
removed id h q v e (well, now) = (
  record {
    queues = well;
    held = λ i j c e'.
        let (is_i, waits_not, own) = v.held i j c e' in (is_i, now i ∙ still i waits_not, own);
    owned = v.owned;
    issued = λ i lt. (now i ∙ still i (v.issued i lt).0, (v.issued i lt).1);
  },
  (e, now id ∙ if_same _ _ id id refl, λ i ne. (refl, now i ∙ if_other _ _ i id ne)),
)
  where
    still :
        (i : ℕ) → pending h.queues i ≡ none → (if i == id then none else pending h.queues i) ≡ none
    still i w = elim (Bool-cases (i == id)) [ inl same ↦ rw same refl | inr other ↦ rw other w ]

-- The job was in progress.
finished :
    (id : ℕ) (h : Handler) (v : IsSafe h) (j : Job) (owner : Bytes)
    → h.in_progress id ≡ some (j, owner)
    → (h' : Handler) × (delete_progress id (h, false) (some (j, owner)) ≡ ok h')
      × IsSafe h'
      × IsReleased id none h h'
finished id h v j owner e =
    let (is_id, waits_not, _) = v.held id j owner e in
    (
      released h v id j owner e h.queues,
      ap
          (λ (k : ℕ). ok (record h {
            client_job = drop_job owner k h (h.client_job owner);
            in_progress = set_progress id none h;
          }))
          is_id,
      released-IsSafe h v id j owner e h.queues v.queues (λ i ne. refl),
      (if_same _ _ id id refl, waits_not, λ i ne. (if_other _ _ i id ne, refl)),
    )

-- `DeleteJob` on a well-formed state: a job that waits or is in progress is gone from both and from its
-- client, and no other has changed; and if there is none, it answers that.
pub delete_job_lem :
    (id : ℕ) (h : Handler)
    → IsSafe h
    → ((h' : Handler) × (delete_job id h ≡ ok h')
        × ((pending h.queues id ≢ none) ⊎ (h.in_progress id ≢ none))
        × IsSafe h'
        × IsReleased id none h h')
      ⊎ ((pending h.queues id ≡ none) × (h.in_progress id ≡ none) × (delete_job id h ≡ err no_job))
unfolding delete_job
delete_job_lem id h v = elim (remove_lem id h.queues v.queues) [
  | inl (waits_not, not_found) ↦ absent waits_not not_found (h.in_progress id) refl
  | inr (j, q, waits, done, without) ↦
      let idle = waiting-idle id h v j waits (h.in_progress id) refl in
      let (safe, gone) = removed id h q v idle without in
      inl (record h { queues = q }, rw (done, idle) refl, inl (λ n. cc (sym waits ∙ n)), safe, gone)
]
  where
    absent :
        pending h.queues id ≡ none
        → remove id h.queues ≡ err job_queue_not_found
        → (o : Option (Job × Bytes)) → h.in_progress id ≡ o
        → ((h' : Handler) × (after_remove h (remove id h.queues)
                >>= (λ r. delete_progress id r (h.in_progress id))
              ≡ ok h')
            × ((pending h.queues id ≢ none) ⊎ (h.in_progress id ≢ none))
            × IsSafe h'
            × IsReleased id none h h')
          ⊎ ((pending h.queues id ≡ none)
              × (h.in_progress id ≡ none)
              × ((after_remove h (remove id h.queues) >>= λ r.
                    delete_progress id r (h.in_progress id))
                  ≡ err no_job))
    absent w n none e = inr (w, e, rw (n, e) refl)
    absent w n (some (j, owner)) e =
        let (h', done, safe, gone) = finished id h v j owner e in
        inl (h', rw (n, e) done, inr (λ e'. cc (sym e ∙ e')), safe, gone)
