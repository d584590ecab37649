-- ===== src/Execution/Jobs.antt =====
-- nan/execution/jobs.py: an agent's background jobs. Which processes run is an argument, as it is after
-- the grace in `stop_all`.
use nan_itself.Base.{
  ℕ, suc, String, ◌<>◌, Bool, not, List, [], ◌∷◌, ◌++◌, map, string_eq, nat_eq, select,
}
use nan_itself.Base.Dict.{Dict, values, insert, erase}
use nan_itself.Base.Text.{decimal}

pub record Job : Type 0 where
  pub job_id : String
  pub pgid : ℕ
  pub log_path : String

pub record JobRegistry : Type 0 where
  pub jobs : Dict String Job
  pub next : ℕ

-- `JobRegistry()`
abbrev pub no_jobs : JobRegistry
no_jobs = record { jobs = []; next = 0 }

-- `new_id`
unfoldable pub new_id : JobRegistry → JobRegistry × String
new_id r = (record r { next = suc r.next }, "j" <> decimal (suc r.next))

-- `_forget_exited`
abbrev pub ids_exited : (running : Job → Bool) → List Job → List String
ids_exited running js = map (λ j. j.job_id) (select (λ j. not (running j)) js)

abbrev pub pop_all : List String → Dict String Job → Dict String Job
pop_all [] d = d
pop_all (i ∷ is) d = pop_all is (erase i d)

unfoldable pub forget_exited : (running : Job → Bool) → JobRegistry → JobRegistry
forget_exited running r = record r { jobs = pop_all (ids_exited running (values r.jobs)) r.jobs }

-- `add`
unfoldable pub add : (running : Job → Bool) → Job → JobRegistry → JobRegistry
unfolding forget_exited
add running j r = let r' = forget_exited running r in record r' { jobs = insert j.job_id j r'.jobs }

-- `live`
unfoldable pub live : (running : Job → Bool) → JobRegistry → List Job
live running r = select running (values r.jobs)

pub data Sent : Type 0 where
  sigterm : (pgid : ℕ) → Sent
  sigkill : (pgid : ℕ) → Sent

-- `stop_all`: the registry afterwards, and the signals that are sent, in order. A job is still there
-- after the grace where `survives`.
unfoldable pub stop_all : (running survives : Job → Bool) → JobRegistry → JobRegistry × List Sent
unfolding live
stop_all running survives r =
    let pending = live running r in
    (
      record r { jobs = [] },
      map (λ j. sigterm j.pgid) pending ++ map (λ j. sigkill j.pgid) (select survives pending),
    )
