-- ===== src/Tests/Execution.antt =====
-- The sandbox, the jobs and `shell` at concrete inputs.
use nan_itself.Base.{
  String, ◌≡◌, refl, subst, Bool, true, false, Option, none, some, [], ◌∷◌, ◌==◌, string_eq, nat_eq,
  In,
}
use nan_itself.Base.Text.{strip, decimal}
use nan_itself.Base.Json.{str, Fields, end, field, get}
use nan_itself.Execution.Sandbox.{
  Host, Settings, Sandbox, build, built, wrap, detect_tool, compile_deny_rules, refusal_reason,
  bwrap,
}
use nan_itself.Execution.Jobs.{Job, JobRegistry, no_jobs, new_id, add, sigterm, sigkill, stop_all}
use nan_itself.Execution.Kept.{Reach, registers, begins, goes, stop_all-Reach}
use nan_itself.Execution.Kept
use nan_itself.Agent.Acts.Command.{
  Machine, Launch, launches, shell_verb, IsChecked, shell_verb-IsChecked, cwd_of, environment,
}

abbrev job : Job
job = record { job_id = "j1"; pgid = 40; log_path = "j1.log" }

first_id : (new_id no_jobs).1 ≡ job.job_id
unfolding new_id decimal
first_id = refl

abbrev on : Job → Bool
on j = true

abbrev registry : JobRegistry
registry = add on job (new_id no_jobs).0

registered : Reach none (job ∷ []) on registry
registered =
    goes (some job.job_id) none [] (job ∷ []) on on (new_id no_jobs).0 registry
      (subst (λ i. Reach (some i) [] on (new_id no_jobs).0) first_id
        (goes none (some (new_id no_jobs).1) [] [] on on no_jobs (new_id no_jobs).0 (begins on)
          (Kept.launches [] on no_jobs)))
      (registers [] on (new_id no_jobs).0 job)

stop_all-Reach_example :
    ((stop_all on on registry).0.jobs ≡ [])
    × ((j : Job)
        → In j (job ∷ [])
        → on j ≡ true
        → In (sigterm j.pgid) (stop_all on on registry).1
          × (on j ≡ true → In (sigkill j.pgid) (stop_all on on registry).1))
stop_all-Reach_example = stop_all-Reach none (job ∷ []) on on registry registered

abbrev host : Host
host = record {
  platform = "linux";
  is_linux = true;
  which = λ t. t == "bwrap";
  quote = λ s. s;
  temp = "/tmp";
  resolve = λ p. p;
  exists_path = λ p. true;
}

-- A pattern is found where it is the whole command.
abbrev whole : String → Option (String → Bool)
whole p = some (λ c. c == p)

abbrev settings : Settings
settings = record {
  workspace = "/w";
  package_dir = "/n";
  builtin_dir = "/b";
  required = true;
  deny = record { pattern = "reboot"; reason = "no" } ∷ [];
}

abbrev sandbox : Sandbox
sandbox = record {
  settings = settings;
  tool = some bwrap;
  rules = ((λ c. c == "reboot"), "no") ∷ [];
}

sandbox_built : build whole host settings ≡ built sandbox
unfolding build detect_tool compile_deny_rules string_eq
sandbox_built = refl

abbrev machine : Machine
machine = record {
  host = host;
  sandbox = sandbox;
  workspace = "w" ∷ [];
  resolved = λ p. "w" ∷ p ∷ [];
  is_dir = λ p. true;
  shown = λ p. "";
  environ = [];
}

abbrev arguments : Fields
arguments = field "command" (str "ls") (field "cwd" (str "src") end)

abbrev launch : Launch
launch = record {
  command = wrap host sandbox "ls";
  cwd = "w" ∷ "src" ∷ [];
  env = none;
  stdin = none;
  background = false;
}

launched : shell_verb machine arguments ≡ launches launch
unfolding shell_verb cwd_of environment refusal_reason strip get string_eq
launched = refl

shell_verb-IsChecked_example : IsChecked machine arguments launch
shell_verb-IsChecked_example = shell_verb-IsChecked machine arguments launch launched
