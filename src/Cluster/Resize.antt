-- ===== src/Cluster/Resize.antt =====
-- A resize job of cluster.go: the nodes that have work to do, and what the coordinator does when
-- one of them reports that it is done. What goes into the channel `result` is returned.
pub mod Completion
use pilosa.Common.{
  ℕ, List, [], ◌∷◌, ◌++◌, Bool, true, false, not, ◌&&◌, ◌||◌, ◌==◌, if◌then◌else◌, Option, none,
  some,
}

pub data JobState : Type 0 where
  job_new : JobState
  job_running : JobState
  job_done : JobState
  job_aborted : JobState

pub data JobAction : Type 0 where
  action_add : JobAction
  action_remove : JobAction

-- `IDs map[string]bool`: one entry for a key.
abbrev pub JobIds : Type 0
JobIds = List (ℕ × Bool)

pub record ResizeJob : Type 0 where
  pub job_ids : JobIds
  pub job_state : JobState

abbrev pub has_key : ℕ → JobIds → Bool
has_key id [] = false
has_key id ((k, b) ∷ ids) = id == k || has_key id ids

abbrev pub replaced : ℕ → Bool → JobIds → JobIds
replaced id value [] = []
replaced id value ((k, b) ∷ ids) = (if id == k then (k, value) else (k, b)) ∷ replaced id value ids

-- `IDs[id] = value`.
abbrev pub put_id : ℕ → Bool → JobIds → JobIds
put_id id value ids = if has_key id ids then replaced id value ids else (id, value) ∷ ids

unfoldable pub track : List ℕ → JobIds → JobIds
track [] ids = ids
track (n ∷ nodes) ids = track nodes (put_id n false ids)

unfoldable pub track_others : ℕ → List ℕ → JobIds → JobIds
track_others node [] ids = ids
track_others node (n ∷ nodes) ids =
    track_others node nodes (if n == node then ids else put_id n false ids)

unfoldable pub new_resize_job : List ℕ → ℕ → JobAction → ResizeJob
new_resize_job existing_nodes node action_remove = record {
  job_ids = track_others node existing_nodes [];
  job_state = job_new;
}
new_resize_job existing_nodes node action_add = record {
  job_ids = put_id node false (track existing_nodes []);
  job_state = job_new;
}

-- Whether the state may still change: it is empty or running.
abbrev pub is_open : JobState → Bool
is_open job_new = true
is_open job_running = true
is_open job_done = false
is_open job_aborted = false

unfoldable pub set_state : ResizeJob → JobState → ResizeJob
set_state j state = if is_open j.job_state then record j { job_state = state } else j

abbrev pub is_complete : JobState → Bool
is_complete job_new = false
is_complete job_running = false
is_complete job_done = true
is_complete job_aborted = true

abbrev pub nodes_are_pending : JobIds → Bool
nodes_are_pending [] = false
nodes_are_pending ((id, complete) ∷ ids) = not complete || nodes_are_pending ids

-- The state sent to `result`, and whether an error was returned.
abbrev pub Outcome : Type 0
Outcome = Option JobState × Bool

-- `markResizeInstructionComplete` for a report of a node, with or without an error.
unfoldable pub mark_complete : ResizeJob → ℕ → Bool → Outcome × ResizeJob
mark_complete j node true = ((some job_aborted, true), j)
mark_complete j node false =
    let ids = put_id node true j.job_ids in
    if is_complete j.job_state then ((none, true), j) else (
      (if nodes_are_pending ids then none else some job_done, false),
      record j { job_ids = ids },
    )

-- `run`: the state sent and whether an error is returned, where `delivered` says whether every
-- instruction could be sent to its node.
unfoldable pub run_job : ResizeJob → Bool → Outcome × ResizeJob
run_job j delivered =
    let started = set_state j job_running in
    if not (nodes_are_pending started.job_ids)
    then ((some job_done, false), started)
    else if delivered
    then ((none, false), started)
    else ((some job_aborted, true), started)

-- Reports without an error, one after the other.
unfoldable pub mark_all : ResizeJob → List ℕ → ResizeJob
mark_all j [] = j
mark_all j (n ∷ nodes) = mark_all (mark_complete j n false).1 nodes
