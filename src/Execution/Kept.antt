-- ===== src/Execution/Kept.antt =====
-- nan/execution/jobs.py: a job that runs stays in its agent's registry, until `stop_all` ends it.
use nan_itself.Base.{
  ℕ, ◌≤◌, ◌<◌, String, ◌<>◌, ◌≡◌, refl, sym, ap, ◌∙◌, inl, inr, Bool, true, false, Option, none,
  some, List, [], ◌∷◌, ◌++◌, map, arith, if◌then◌else◌, Bool-cases, ◌==◌, contains, ==_iff, ==_refl,
  string_eq, nat_eq, select, All, In,
}
use nan_itself.Base.Dict.{
  Dict, values, lookup, erase, lookup-insert, lookup-erase, Unique, insert-Unique, erase-Unique,
  All-insert, All-erase, lookup-nil, lookup-cons,
}
use nan_itself.Base.Text.{decimal}
use nan_itself.Base.Text.Digits.{decimal-injective}
use text.Mathlib.TextLemmas.{nil-append, cons-append}
use nan_itself.Execution.Jobs.{
  Job, JobRegistry, no_jobs, new_id, ids_exited, pop_all, forget_exited, add, live, Sent, sigterm,
  sigkill, stop_all,
}

lookup-pop_all :
    (is : List String) (k : String) (d : Dict String Job)
    → lookup k (pop_all is d) ≡ (if contains is k then none else lookup k d)
lookup-pop_all [] k d = refl
lookup-pop_all (i ∷ is) k d = ground (arith, lookup-pop_all is k (erase i d), lookup-erase k i d)

pop_all-Unique : (is : List String) (d : Dict String Job) → Unique d → Unique (pop_all is d)
pop_all-Unique [] d u = u
pop_all-Unique (i ∷ is) d u = pop_all-Unique is (erase i d) (erase-Unique i d u)

abbrev Keyed : String × Job → Type 0
Keyed (i, j) = i ≡ j.job_id

pop_all-Keyed : (is : List String) (d : Dict String Job) → All Keyed d → All Keyed (pop_all is d)
pop_all-Keyed [] d h = h
pop_all-Keyed (i ∷ is) d h = pop_all-Keyed is (erase i d) (All-erase Keyed i d h)

older :
    (k i : String) (w : Job) (d : Dict String Job) (running : Job → Bool)
    → lookup i d ≡ none
    → (j : Job) × (lookup k d ≡ some j) × (running j ≡ false)
    → (j : Job) × (lookup k ((i, w) ∷ d) ≡ some j) × (running j ≡ false)
older k i w d running fresh (j, e, off) = elim (Bool-cases (k == i)) [
  | inl it ↦
      let none_ : some j ≡ none = sym e ∙ ap (λ x. lookup x d) ((==_iff k i).0 it) ∙ fresh in cc
  | inr other ↦ (j, lookup-cons k i w d ∙ rw other e, off)
]

-- An id that is forgotten is that of a job which has exited.
exited-lookup :
    (running : Job → Bool) (k : String) (d : Dict String Job)
    → Unique d
    → All Keyed d
    → contains (ids_exited running (values d)) k ≡ true
    → (j : Job) × (lookup k d ≡ some j) × (running j ≡ false)
exited-lookup running k [] u h m = cc
exited-lookup running k ((i, w) ∷ d) (fresh, u) (here_, h) m = elim (Bool-cases (running w)) [
  | inl on ↦ older k i w d running fresh (exited-lookup running k d u h (ground arith))
  | inr off ↦ elim (Bool-cases (k == w.job_id)) [
    | inl it ↦ (w, rw (lookup-cons k i w d, here_, it) refl, off)
    | inr other ↦ older k i w d running fresh (exited-lookup running k d u h (ground arith))
  ]
]

-- The id of a job whose grace is not over is the last one given out, and no registered job has it.
abbrev pub IsFresh : Option String → List Job → JobRegistry → Type 0
IsFresh none registered r = Unit
IsFresh (some i) registered r =
    (i ≡ "j" <> decimal r.next)
    × ((j : Job) → In j registered → (n : ℕ) × (n < r.next) × (j.job_id ≡ "j" <> decimal n))

-- The ids were all given out, each entry stands under its own, and every job that was registered and
-- still runs is in the registry.
pub record Holds (grace : Option String) (registered : List Job) (running : Job → Bool)
    (r : JobRegistry) : Type 0 where
  pub unique : Unique r.jobs
  pub keyed : All Keyed r.jobs
  pub given : (j : Job) → In j registered → (n : ℕ) × (n ≤ r.next) × (j.job_id ≡ "j" <> decimal n)
  pub kept : (j : Job) → In j registered → running j ≡ true → lookup j.job_id r.jobs ≡ some j
  pub fresh : IsFresh grace registered r

-- What `_background` and time do to an agent's jobs. A command gets an id and its process is started;
-- while the grace lasts, the id is that of no job in the registry. Then the job is registered, or it
-- is not: the process did not start, it exited at once, or the turn was cancelled in the grace. And a
-- registered job that has exited does not run again.
pub data Step
    : Option String
      → List Job
      → (Job → Bool)
      → JobRegistry
      → Option String
      → List Job
      → (Job → Bool)
      → JobRegistry
      → Type 0 where
  launches :
      (registered : List Job) (running : Job → Bool) (r : JobRegistry)
      → Step none registered running r (some (new_id r).1) registered running (new_id r).0
  registers :
      (registered : List Job) (running : Job → Bool) (r : JobRegistry) (j : Job)
      → Step (some j.job_id) registered running r none (j ∷ registered) running (add running j r)
  abandons :
      (i : String) (registered : List Job) (running : Job → Bool) (r : JobRegistry)
      → Step (some i) registered running r none registered running r
  exits :
      (grace : Option String) (registered : List Job) (running running' : Job → Bool)
      (r : JobRegistry)
      → ((j : Job) → In j registered → running' j ≡ true → running j ≡ true)
      → Step grace registered running r grace registered running' r

forget-kept :
    (running : Job → Bool) (k : String) (j : Job) (r : JobRegistry)
    → Unique r.jobs
    → All Keyed r.jobs
    → running j ≡ true
    → lookup k r.jobs ≡ some j
    → lookup k (forget_exited running r).jobs ≡ some j
unfolding forget_exited
forget-kept running k j r u h on e =
    elim (Bool-cases (contains (ids_exited running (values r.jobs)) k)) [
      | inl gone ↦
          let (w, e', off) = exited-lookup running k r.jobs u h gone in
          let same : w ≡ j = ground arith in absurd (ground arith)
      | inr stays ↦ lookup-pop_all (ids_exited running (values r.jobs)) k r.jobs ∙ rw stays e
    ]

tail : String → String
tail String.[] = ""
tail (String.◌∷◌ c s) = s

tail-append : (s : String) → tail ("j" <> s) ≡ s
unfolding tail
tail-append s = ap tail (cons-append "j" "" s) ∙ nil-append s

other_id :
    (j j' : Job) (m n : ℕ)
    → j.job_id ≡ "j" <> decimal m
    → j'.job_id ≡ "j" <> decimal n
    → (n < m)
    → (j'.job_id == j.job_id) ≡ false
other_id j j' m n e e' less = elim (Bool-cases (j'.job_id == j.job_id)) [
  | inl it ↦
      let same : "j" <> decimal n ≡ "j" <> decimal m =
        sym e' ∙ (==_iff j'.job_id j.job_id).0 it ∙ e in
      let texts = sym (tail-append (decimal n)) ∙ ap tail same ∙ tail-append (decimal m) in
      let n_is = decimal-injective n m texts in absurd (omega (arith, n_is, less))
  | inr other ↦ other
]

pub Step-Holds :
    {grace : Option String} {registered : List Job} {running : Job → Bool} {r : JobRegistry}
    {grace' : Option String} {registered' : List Job} {running' : Job → Bool} {r' : JobRegistry}
    → Step grace registered running r grace' registered' running' r'
    → Holds grace registered running r
    → Holds grace' registered' running' r'
unfolding new_id add forget_exited
Step-Holds (launches registered running r) v = record {
  unique = v.unique;
  keyed = v.keyed;
  given = λ j m. let (n, le, e) = v.given j m in (n, omega arith, e);
  kept = v.kept;
  fresh = (refl, λ j m. let (n, le, e) = v.given j m in (n, omega arith, e));
}
Step-Holds (registers registered running r j) v =
    let d = pop_all (ids_exited running (values r.jobs)) r.jobs in
    let (own, others) = v.fresh in
    record {
      unique =
          insert-Unique j.job_id j d
            (pop_all-Unique (ids_exited running (values r.jobs)) r.jobs v.unique);
      keyed =
          All-insert Keyed j.job_id j d refl
            (pop_all-Keyed (ids_exited running (values r.jobs)) r.jobs v.keyed);
      given = λ j' m. elim m [
        | inl same ↦ (r.next, omega arith, ap (λ (x : Job). x.job_id) same ∙ own)
        | inr old ↦ let (n, le, e') = v.given j' old in (n, omega arith, e')
      ];
      kept = λ j' m on. lookup-insert j'.job_id j.job_id j d ∙ elim m [
        | inl same ↦ rw (same, ==_refl j.job_id) refl
        | inr old ↦
            let (n, less, e') = others j' old in
            rw (other_id j j' r.next n own e' less)
              (forget-kept running j'.job_id j' r v.unique v.keyed on (v.kept j' old on))
      ];
      fresh = tt;
    }
Step-Holds (abandons i registered running r) v = record {
  unique = v.unique;
  keyed = v.keyed;
  given = v.given;
  kept = v.kept;
  fresh = tt;
}
Step-Holds (exits grace registered running running' r fewer) v = record {
  unique = v.unique;
  keyed = v.keyed;
  given = v.given;
  kept = λ j m on. v.kept j m (fewer j m on);
  fresh = v.fresh;
}

-- Any course of these, from an agent's first job on.
pub data Reach : Option String → List Job → (Job → Bool) → JobRegistry → Type 0 where
  begins : (running : Job → Bool) → Reach none [] running no_jobs
  goes :
      (grace grace' : Option String) (registered registered' : List Job)
      (running running' : Job → Bool) (r r' : JobRegistry)
      → Reach grace registered running r
      → Step grace registered running r grace' registered' running' r'
      → Reach grace' registered' running' r'

Reach-Holds :
    (grace : Option String) (registered : List Job) (running : Job → Bool) (r : JobRegistry)
    → Reach grace registered running r
    → Holds grace registered running r
Reach-Holds _ _ _ _ (begins running) = record {
  unique = tt;
  keyed = tt;
  given = λ j m. elim m [ ];
  kept = λ j m on. elim m [ ];
  fresh = tt;
}
Reach-Holds _ _ _ _ (goes grace grace' registered registered' running running' r r' reach step) =
    Step-Holds step (Reach-Holds grace registered running r reach)

lookup-values : (k : String) (j : Job) (d : Dict String Job) → lookup k d ≡ some j → In j (values d)
lookup-values k j [] e = let no = sym (lookup-nil {V = Job} k) ∙ e in absurd (ground arith)
lookup-values k j ((i, w) ∷ d) e = elim (Bool-cases (k == i)) [
  | inl it ↦ inl (ground (arith, lookup-cons k i w d))
  | inr other ↦ inr (lookup-values k j d (ground (arith, lookup-cons k i w d)))
]

In-select : (p : Job → Bool) (j : Job) (js : List Job) → In j js → p j ≡ true → In j (select p js)
In-select p j [] m e = m
In-select p j (w ∷ js) (inl same) e = elim (Bool-cases (p w)) [
  | inl on ↦ rw on (inl same)
  | inr off ↦ let no : false ≡ true = sym off ∙ ap p (sym same) ∙ e in cc
]
In-select p j (w ∷ js) (inr m) e = elim (Bool-cases (p w)) [
  | inl on ↦ rw on (inr (In-select p j js m e))
  | inr off ↦ rw off (In-select p j js m e)
]

In-map : (f : Job → Sent) (j : Job) (js : List Job) → In j js → In (f j) (map f js)
In-map f j [] m = elim m [ ]
In-map f j (w ∷ js) (inl same) = inl (ap f same)
In-map f j (w ∷ js) (inr m) = inr (In-map f j js m)

In-left : (x : Sent) (xs ys : List Sent) → In x xs → In x (xs ++ ys)
In-left x [] ys m = elim m [ ]
In-left x (y ∷ xs) ys (inl e) = inl e
In-left x (y ∷ xs) ys (inr m) = inr (In-left x xs ys m)

In-right : (x : Sent) (xs ys : List Sent) → In x ys → In x (xs ++ ys)
In-right x [] ys m = m
In-right x (y ∷ xs) ys m = inr (In-right x xs ys m)

-- After any course of an agent's jobs, when they are stopped every job that was registered, as
-- `_background` does after its grace, and that still runs is sent a SIGTERM, and a SIGKILL where it
-- survives the wait of the stop, and none is left in the registry.
pub stop_all-Reach :
    (grace : Option String) (registered : List Job) (running survives : Job → Bool)
    (r : JobRegistry)
    → Reach grace registered running r
    → ((stop_all running survives r).0.jobs ≡ [])
      × ((j : Job)
          → In j registered
          → running j ≡ true
          → In (sigterm j.pgid) (stop_all running survives r).1
            × (survives j ≡ true → In (sigkill j.pgid) (stop_all running survives r).1))
unfolding stop_all live
stop_all-Reach grace registered running survives r reach = (
  refl,
  λ j m on.
      let h = Reach-Holds grace registered running r reach in
      let pending = select running (values r.jobs) in
      let there : In j pending =
        In-select running j (values r.jobs) (lookup-values j.job_id j r.jobs (h.kept j m on)) on in
      (
        In-left (sigterm j.pgid) (map (λ w. sigterm w.pgid) pending)
            (map (λ w. sigkill w.pgid) (select survives pending))
            (In-map (λ w. sigterm w.pgid) j pending there),
        λ alive.
            In-right (sigkill j.pgid) (map (λ w. sigterm w.pgid) pending)
              (map (λ w. sigkill w.pgid) (select survives pending))
              (In-map (λ w. sigkill w.pgid) j (select survives pending)
                (In-select survives j pending there alive)),
      ),
)
