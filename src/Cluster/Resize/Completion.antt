-- ===== src/Cluster/Resize/Completion.antt =====
-- The report that completes a resize job is that of the last of its nodes, whatever their order.
use pilosa.Common.{
  ℕ, ◌≡◌, refl, sym, ap, ◌∙◌, List, [], ◌∷◌, ◌++◌, Bool, true, false, not, ◌&&◌, ◌||◌, ◌==◌, arith,
  Bool-cases, inl, inr, if◌then◌else◌, Option, none, some,
}
use pilosa.Cluster.Resize.{
  JobState, job_running, job_done, JobAction, action_add, action_remove, JobIds, ResizeJob, has_key,
  replaced, put_id, track, track_others, new_resize_job, set_state, is_complete, nodes_are_pending,
  mark_complete, mark_all, Outcome, run_job,
}

abbrev pub elem : ℕ → List ℕ → Bool
elem id [] = false
elem id (x ∷ xs) = id == x || elem id xs

-- Every node that an action concerns is among `reports`.
abbrev pub all_reported : List ℕ → List ℕ → Bool
all_reported reports [] = true
all_reported reports (n ∷ nodes) = elem n reports && all_reported reports nodes

abbrev pub others_reported : ℕ → List ℕ → List ℕ → Bool
others_reported node reports [] = true
others_reported node reports (n ∷ nodes) =
    (n == node || elem n reports) && others_reported node reports nodes

abbrev pub reported : List ℕ → ℕ → JobAction → List ℕ → Bool
reported nodes node action_add reports = elem node reports && all_reported reports nodes
reported nodes node action_remove reports = others_reported node reports nodes

-- What is pending once the nodes of a list have reported.
abbrev pending_after : List ℕ → JobIds → Bool
pending_after reports [] = false
pending_after reports ((k, b) ∷ ids) = not (b || elem k reports) || pending_after reports ids

pending_after-replaced :
    (reports : List ℕ) (m : ℕ) (ids : JobIds)
    → pending_after reports (replaced m true ids) ≡ pending_after (m ∷ reports) ids
pending_after-replaced reports m [] = refl
pending_after-replaced reports m ((k, b) ∷ ids) = elim (Bool-cases (m == k)) [
  | inl same ↦
      let same' : (k == m) ≡ true = ground arith in
      rw (same, same') (ground (arith, pending_after-replaced reports m ids))
  | inr other ↦
      let other' : (k == m) ≡ false = ground arith in
      rw (other, other') (ground (arith, pending_after-replaced reports m ids))
]

pending_after-absent :
    (reports : List ℕ) (m : ℕ) (ids : JobIds)
    → has_key m ids ≡ false
    → pending_after reports ids ≡ pending_after (m ∷ reports) ids
pending_after-absent reports m [] h = refl
pending_after-absent reports m ((k, b) ∷ ids) h =
    let other : (k == m) ≡ false = ground arith in
    rw other (ground (arith, pending_after-absent reports m ids (ground arith)))

pending_after-put_id :
    (reports : List ℕ) (m : ℕ) (ids : JobIds)
    → pending_after reports (put_id m true ids) ≡ pending_after (m ∷ reports) ids
pending_after-put_id reports m ids = elim (Bool-cases (has_key m ids)) [
  | inl old ↦ rw old (pending_after-replaced reports m ids)
  | inr new ↦ rw new (pending_after-absent reports m ids new)
]

pending_after-none : (ids : JobIds) → pending_after [] ids ≡ nodes_are_pending ids
pending_after-none [] = refl
pending_after-none ((k, b) ∷ ids) = ground (arith, pending_after-none ids)

-- No node has reported.
abbrev Fresh : JobIds → Type 0
Fresh [] = Unit
Fresh ((k, b) ∷ ids) = (b ≡ false) × Fresh ids

replaced-Fresh : (m : ℕ) (ids : JobIds) → Fresh ids → replaced m false ids ≡ ids
replaced-Fresh m [] p = refl
replaced-Fresh m ((k, b) ∷ ids) p = elim (Bool-cases (m == k)) [
  | inl same ↦ rw same (
      ap (λ (x : Bool). (k, x) ∷ replaced m false ids) (sym p.0)
      ∙ ap (λ (xs : JobIds). (k, b) ∷ xs) (replaced-Fresh m ids p.1))
  | inr other ↦ rw other (ap (λ (xs : JobIds). (k, b) ∷ xs) (replaced-Fresh m ids p.1))
]

pending_after-key :
    (reports : List ℕ) (m : ℕ) (ids : JobIds)
    → Fresh ids
    → has_key m ids ≡ true
    → pending_after reports ids ≡ (not (elem m reports) || pending_after reports ids)
pending_after-key reports m [] p h = absurd (ground arith)
pending_after-key reports m ((k, b) ∷ ids) p h = elim (Bool-cases (m == k)) [
  | inl same ↦ let e : m ≡ k = ground arith in rw (e, p.0) (ground arith)
  | inr other ↦ ground (arith, pending_after-key reports m ids p.1)
]

put_id-Fresh :
    (reports : List ℕ) (m : ℕ) (ids : JobIds)
    → Fresh ids
    → Fresh (put_id m false ids)
      × (pending_after reports (put_id m false ids)
          ≡ (not (elem m reports) || pending_after reports ids))
put_id-Fresh reports m ids p = elim (Bool-cases (has_key m ids)) [
  | inl old ↦ rw (old, replaced-Fresh m ids p) (p, pending_after-key reports m ids p old)
  | inr new ↦ rw new ((refl, p), refl)
]

track-pending :
    (reports nodes : List ℕ) (ids : JobIds)
    → Fresh ids
    → Fresh (track nodes ids)
      × (pending_after reports (track nodes ids)
          ≡ (not (all_reported reports nodes) || pending_after reports ids))
unfolding track
track-pending reports [] ids p = (p, refl)
track-pending reports (n ∷ nodes) ids p =
    let one = put_id-Fresh reports n ids p in
    let rest = track-pending reports nodes (put_id n false ids) one.0 in
    (rest.0, rest.1 ∙ rw one.1 (ground arith))

track_others-pending :
    (reports : List ℕ) (node : ℕ) (nodes : List ℕ) (ids : JobIds)
    → Fresh ids
    → pending_after reports (track_others node nodes ids)
      ≡ (not (others_reported node reports nodes) || pending_after reports ids)
unfolding track_others
track_others-pending reports node [] ids p = refl
track_others-pending reports node (n ∷ nodes) ids p = elim (Bool-cases (n == node)) [
  | inl gone ↦ rw gone (track_others-pending reports node nodes ids p)
  | inr stays ↦
      let one = put_id-Fresh reports n ids p in
      rw stays (
        track_others-pending reports node nodes (put_id n false ids) one.0
        ∙ rw one.1 (ground arith))
]

new_resize_job-pending :
    (nodes : List ℕ) (node : ℕ) (action : JobAction) (reports : List ℕ)
    → pending_after reports (new_resize_job nodes node action).job_ids
      ≡ not (reported nodes node action reports)
unfolding new_resize_job
new_resize_job-pending nodes node action_add reports =
    let others = track-pending reports nodes [] tt in
    let one = put_id-Fresh reports node (track nodes []) others.0 in
    one.1 ∙ rw others.1 (ground arith)
new_resize_job-pending nodes node action_remove reports =
    track_others-pending reports node nodes [] tt ∙ ground arith

mark_complete-open :
    (j : ResizeJob) (m : ℕ)
    → is_complete j.job_state ≡ false
    → mark_complete j m false ≡ (
      (if nodes_are_pending (put_id m true j.job_ids) then none else some job_done, false),
      record j { job_ids = put_id m true j.job_ids },
    )
unfolding mark_complete
mark_complete-open j m e = rw e refl

-- What is pending after reports without an error.
mark_all-pending :
    (j : ResizeJob) (ns reports : List ℕ)
    → is_complete j.job_state ≡ false
    → (pending_after reports (mark_all j ns).job_ids ≡ pending_after (ns ++ reports) j.job_ids)
      × (is_complete (mark_all j ns).job_state ≡ false)
unfolding mark_all
mark_all-pending j [] reports e = (refl, e)
mark_all-pending j (n ∷ ns) reports e =
    let next : ResizeJob = record j { job_ids = put_id n true j.job_ids } in
    let rest = mark_all-pending next ns reports e in
    let made : (mark_complete j n false).1 ≡ next =
      ap (λ (o : Outcome × ResizeJob). o.1) (mark_complete-open j n e) in
    let run : mark_all (mark_complete j n false).1 ns ≡ mark_all next ns =
      ap (λ (x : ResizeJob). mark_all x ns) made in
    (
      ap (λ (x : ResizeJob). pending_after reports x.job_ids) run
          ∙ rest.0
          ∙ pending_after-put_id (ns ++ reports) n j.job_ids,
      ap (λ (x : ResizeJob). is_complete x.job_state) run ∙ rest.1,
    )

started :
    (nodes : List ℕ) (node : ℕ) (action : JobAction)
    → (is_complete (set_state (new_resize_job nodes node action) job_running).job_state ≡ false)
      × ((set_state (new_resize_job nodes node action) job_running).job_ids
          ≡ (new_resize_job nodes node action).job_ids)
unfolding set_state new_resize_job
started nodes node action_add = (refl, refl)
started nodes node action_remove = (refl, refl)

run_job-started :
    (j : ResizeJob) (delivered : Bool) → (run_job j delivered).1 ≡ set_state j job_running
unfolding run_job
run_job-started j delivered =
    elim (Bool-cases (nodes_are_pending (set_state j job_running).job_ids)) [
      | inr none_left ↦ rw none_left refl
      | inl some_left ↦ elim (Bool-cases delivered) [
        | inl sent ↦ rw (some_left, sent) refl
        | inr lost ↦ rw (some_left, lost) refl
      ]
    ]

started_job-sends_done :
    (nodes : List ℕ) (node : ℕ) (action : JobAction) (ns : List ℕ) (m : ℕ)
    → (mark_complete
        (mark_all (set_state (new_resize_job nodes node action) job_running) ns)
        m
        false).0
      ≡ (if reported nodes node action (ns ++ m ∷ []) then some job_done else none, false)
started_job-sends_done nodes node action ns m =
    let j : ResizeJob = set_state (new_resize_job nodes node action) job_running in
    let (running, same_ids) = started nodes node action in
    let before = mark_all-pending j ns (m ∷ []) running in
    let marked = mark_all j ns in
    let left : nodes_are_pending (put_id m true marked.job_ids)
        ≡ not (reported nodes node action (ns ++ m ∷ [])) =
      sym (pending_after-none (put_id m true marked.job_ids))
      ∙ pending_after-put_id [] m marked.job_ids
      ∙ before.0
      ∙ ap (λ (ids : JobIds). pending_after (ns ++ m ∷ []) ids) same_ids
      ∙ new_resize_job-pending nodes node action (ns ++ m ∷ []) in
    ap (λ (o : Outcome × ResizeJob). o.0) (mark_complete-open marked m before.1)
    ∙ ap (λ (p : Bool). (if p then none else some job_done, false)) left
    ∙ ap (λ (o : Option JobState). (o, false)) (flip (reported nodes node action (ns ++ m ∷ [])))
  where
    flip :
        (b : Bool) → (if not b then none else some job_done) ≡ (if b then some job_done else none)
    flip true = refl
    flip false = refl

-- In a running resize job that adds or removes a node, where nodes have reported one after the
-- other without an error, the report of one more returns no error, and sends done exactly if now
-- every node of the job has reported: for an added node the existing nodes and that node, for a
-- removed one the other existing nodes. A job is thus done once its last node reports, in whatever
-- order.
pub mark_complete-sends_done :
    (nodes : List ℕ) (node : ℕ) (action : JobAction) (ns : List ℕ) (m : ℕ)
    → (mark_complete (mark_all (run_job (new_resize_job nodes node action) true).1 ns) m false).0
      ≡ (if reported nodes node action (ns ++ m ∷ []) then some job_done else none, false)
mark_complete-sends_done nodes node action ns m =
    ap (λ (j : ResizeJob). (mark_complete (mark_all j ns) m false).0)
      (run_job-started (new_resize_job nodes node action) true)
    ∙ started_job-sends_done nodes node action ns m
