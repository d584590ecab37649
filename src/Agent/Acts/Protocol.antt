-- ===== src/Agent/Acts/Protocol.antt =====
-- nan/agent/verbs: the protocol of the verbs that the model is told, and what their code makes of it.
use nan_itself.Base.{
  String, ◌<>◌, ◌≡◌, refl, sym, ap, ◌∙◌, subst, ◌⊎◌, inl, inr, Bool, true, false, not, ◌||◌, Option,
  none, some, List, [], ◌∷◌, arith, ◌==◌, contains, ==_iff, string_eq, nat_eq, select,
}
use nan_itself.Base.Json.{Json, bool, str, arr, obj, Items, nil, cons, Fields, end, field, get}
use nan_itself.Llm.Types.{VerbDefinition}
use nan_itself.Agent.State.{Agent}
use nan_itself.Agent.Tree.{Agents}
use nan_itself.Agent.Acts.{
  VerbName, to_send, to_kill, to_finish, to_spawn, to_sleep, VerbOutcome, Direction, direction_of,
  given_text, send_text, send_verb, kill_verb, finish_verb, spawn_verb, Context, execute,
  sleep_verb,
}

abbrev property : String → Fields → Fields → Fields
property k v rest = field k (obj v) rest

-- An `input_schema`, of its properties and the required ones.
abbrev takes : Fields → Items → Fields
takes properties required = field "type" (str "object") (
    field "properties" (obj properties)
      (field "required" (arr required) (field "additionalProperties" (bool false) end)))

-- `SpawnVerb.definition`
abbrev pub spawn_definition : VerbDefinition
spawn_definition = record {
  name = "spawn";
  description =
      "Spawn a subagent with a task. Returns its short id: keep it, you need it for "
      <> ("send/kill. The child runs in parallel; its finish report arrives in your inbox "
          <> "automatically.");
  input_schema =
      takes
        (property "task"
          (field "type" (str "string") (field "description" (str "The task to delegate.") end))
          (end))
        (cons (str "task") nil);
}

-- `SleepVerb.definition`
abbrev pub sleep_definition : VerbDefinition
sleep_definition = record {
  name = "sleep";
  description = "Wait for a while before your next step.";
  input_schema =
      takes
        (property "seconds"
          (field "type" (str "number") (field "description" (str "How long to wait.") end)) (end))
        (cons (str "seconds") nil);
}

-- `ShellVerb.definition`
abbrev pub shell_definition : VerbDefinition
shell_definition = record {
  name = "shell";
  description =
      "Run a bash command in your workspace. Its cwd is the workspace root unless you "
      <> ("pass 'cwd' (relative to the root and it must stay inside it; prefer 'cwd' over a"
          <> (" leading 'cd'). Commands are non-interactive and have a fixed timeout set by the"
              <> (" user, so a genuinely long task must pass background=true: the call then returns"
                  <> (" a job id, pid and log path at once, and later shell calls poll the log. Output "
                      <> "is truncated (head and tail kept)."))));
  input_schema =
      takes
        (property "command"
          (field "type" (str "string") (field "description" (str "The bash command.") end))
          (property "cwd"
            (field "type" (str "string") (
              field "description"
                (str
                  "Directory to run in, relative to the workspace root; it must stay inside the workspace.")
                end))
            (property "env"
              (field "type" (str "object") (
                field "additionalProperties" (obj (field "type" (str "string") end))
                  (field "description" (str "Extra environment variables for this command.") end)))
              (property "stdin"
                (field "type" (str "string") (
                  field "description"
                    (str "Text written once to the command's stdin. Not allowed with background.")
                    end))
                (property "background"
                  (field "type" (str "boolean") (
                    field "description"
                      (str
                        "Start the command in the background and return immediately with its job id, pid and log path.")
                      end))
                  (end))))))
        (cons (str "command") nil);
}

-- `SendVerb.definition`
abbrev pub send_definition : VerbDefinition
send_definition = record {
  name = "send";
  description =
      "Send text to another agent. direction 'up' delivers to your parent's inbox (the "
      <> ("root has no parent). direction 'down' delivers into a child you spawned: pass "
          <> "its child_id. Text only: ids never travel.");
  input_schema =
      takes
        (property "direction"
          (field "type" (str "string") (
            field "enum" (arr (cons (str "up") (cons (str "down") nil)))
              (field "description" (str "'up' to parent, 'down' to a child.") end)))
          (property "child_id"
            (field "type" (str "string")
              (field "description" (str "Child short id; required for direction 'down'.") end))
            (property "text"
              (field "type" (str "string") (field "description" (str "The message.") end)) (end))))
        (cons (str "direction") (cons (str "text") nil));
}

-- `KillVerb.definition`
abbrev pub kill_definition : VerbDefinition
kill_definition = record {
  name = "kill";
  description =
      "Kill a child you spawned (by child_id). Its own subtree dies with it (cascade). "
      <> "A bare death appears in your delta.";
  input_schema =
      takes
        (property "child_id"
          (field "type" (str "string") (field "description" (str "The child's short id.") end))
          (end))
        (cons (str "child_id") nil);
}

-- `FinishVerb.definition`
abbrev pub finish_definition : VerbDefinition
finish_definition = record {
  name = "finish";
  description =
      "Submit your final report and end your task. Only this ends the task: a plain "
      <> ("reply keeps you running. The report is delivered to your parent automatically. "
          <> "Call it exactly once, when the task is complete.");
  input_schema =
      takes
        (property "report"
          (field "type" (str "string")
            (field "description" (str "Outcome, findings, and anything the spawner needs.") end))
          (end))
        (cons (str "report") nil);
}

-- `CHILD_VERBS` and `ROOT_VERBS`, as `verb_definitions` gives them.
abbrev pub child_verbs : List VerbDefinition
child_verbs =
    spawn_definition ∷ sleep_definition ∷ shell_definition ∷ send_definition ∷ kill_definition
    ∷ finish_definition ∷ []

abbrev pub root_verbs : List VerbDefinition
root_verbs = select (λ d. not (d.name == "finish")) child_verbs

abbrev pub definition_of : VerbName → VerbDefinition
definition_of to_send = send_definition
definition_of to_kill = kill_definition
definition_of to_finish = finish_definition
definition_of to_spawn = spawn_definition
definition_of to_sleep = sleep_definition

abbrev names_in : Items → List String
names_in nil = []
names_in (cons (str k) ks) = k ∷ names_in ks
names_in (cons j ks) = names_in ks

abbrev names_at : Option Json → List String
names_at (some (arr ks)) = names_in ks
names_at _ = []

-- The arguments that a definition tells the model to give.
unfoldable pub required : VerbDefinition → List String
required d = names_at (get "required" d.input_schema)

-- The names that the code looks for.
abbrev wanted : VerbName → List String
wanted to_send = "direction" ∷ "text" ∷ []
wanted to_kill = "child_id" ∷ []
wanted to_finish = "report" ∷ []
wanted to_spawn = "task" ∷ []
wanted to_sleep = "seconds" ∷ []

required-definition_of : (v : VerbName) → required (definition_of v) ≡ wanted v
unfolding required get string_eq
required-definition_of to_send = refl
required-definition_of to_kill = refl
required-definition_of to_finish = refl
required-definition_of to_spawn = refl
required-definition_of to_sleep = refl

Refused : Agents → Agents × VerbOutcome → Type 0
Refused s r = (r.0 ≡ s) × (r.1.detail ≡ end)

module _ (x : Context) (a : Agent) (args : Fields) (s : Agents) where
  no_direction : (t : Option String) → Refused s (send_text x.shows x.now a args none t s)
  unfolding Refused
  no_direction t = (refl, refl)

  no_text : (d : Option Direction) → Refused s (send_text x.shows x.now a args d none s)
  unfolding Refused
  no_text none = (refl, refl)
  no_text (some d) = (refl, refl)

  missing : (k name : String) → (k == name) ≡ true → get k args ≡ none → get name args ≡ none
  missing k name e h = subst (λ n. get n args ≡ none) ((==_iff k name).0 e) h

  one_of : (p q : Bool) → (p || (q || false)) ≡ true → (p ≡ true) ⊎ (q ≡ true)
  one_of p q e = ground arith

  one : (p : Bool) → (p || false) ≡ true → p ≡ true
  one p e = ground arith

  refused :
      (v : VerbName) (k : String)
      → contains (wanted v) k ≡ true
      → get k args ≡ none
      → Refused s (execute x v a args s)
  unfolding Refused execute send_verb kill_verb finish_verb spawn_verb sleep_verb
  refused to_send k m e = elim (one_of (k == "direction") (k == "text") m) [
    | inl it ↦ rw (missing k "direction" it e) (no_direction (given_text (get "text" args)))
    | inr it ↦ rw (missing k "text" it e) (no_text (direction_of (get "direction" args)))
  ]
  refused to_kill k m e = rw (missing k "child_id" (one _ m) e) (refl, refl)
  refused to_finish k m e = rw (missing k "report" (one _ m) e) (refl, refl)
  refused to_spawn k m e = rw (missing k "task" (one _ m) e) (refl, refl)
  refused to_sleep k m e = rw (missing k "seconds" (one _ m) e) (refl, refl)

  -- Of `send`, `kill`, `finish`, `spawn` and `sleep`: a call without an argument that the verb's definition
  -- lists as required leaves every agent as it was, and its outcome has no detail.
  pub execute-required :
      (v : VerbName) (k : String)
      → contains (required (definition_of v)) k ≡ true
      → get k args ≡ none
      → ((execute x v a args s).0 ≡ s) × ((execute x v a args s).1.detail ≡ end)
  unfolding Refused
  execute-required v k m e =
      refused v k (sym (ap (λ l. contains l k) (required-definition_of v)) ∙ m) e
