-- ===== src/Agent/Acts/Command.antt =====
-- nan/agent/verbs/shell.py: what `ShellVerb.execute` checks, and what it then starts. A path is its parts;
-- the file system, which follows links, is an argument.
use nan_itself.Base.{
  String, ◌<>◌, ◌≡◌, refl, subst, inl, inr, Bool, true, false, not, ◌&&◌, Option, none, some, List,
  [], ◌∷◌, arith, if◌then◌else◌, is_some, Bool-cases, ◌==◌, ==_refl, string_eq, nat_eq, All,
}
use nan_itself.Base.Dict.{Dict, insert}
use nan_itself.Base.Text.{strip}
use nan_itself.Base.Json.{Json, null, bool, str, obj, Fields, end, field, get}
use nan_itself.Execution.Sandbox.{refusal_reason, refusal_reason-none, Host, Sandbox, wrap}
use nan_itself.Agent.Acts.{VerbOutcome, says}

abbrev pub Location : Type 0
Location = List String

pub record Machine : Type 0 where
  pub host : Host
  pub sandbox : Sandbox
  pub workspace : Location
  pub resolved : String → Location
  pub is_dir : Location → Bool
  pub shown : Location → String
  pub environ : Dict String String

-- `path.is_relative_to(root)`
abbrev pub is_relative_to : (path root : Location) → Bool
is_relative_to path [] = true
is_relative_to [] (r ∷ rs) = false
is_relative_to (p ∷ ps) (r ∷ rs) = p == r && is_relative_to ps rs

-- What a check of an argument gives: a value, or the error.
pub data Checked {ℓ} (A : Type ℓ) : Type ℓ where
  good : A → Checked A
  bad : (error : String) → Checked A

abbrev pub cwd_at : Machine → Location → Checked Location
cwd_at m p =
    if not (is_relative_to p m.workspace)
    then bad ("'cwd' must stay inside the workspace: " <> m.shown p)
    else if not (m.is_dir p)
    then bad ("'cwd' is not a directory: " <> m.shown p)
    else good p

-- `_cwd`
unfoldable pub cwd_of : Machine → Option Json → Checked Location
unfolding strip
cwd_of m none = good m.workspace
cwd_of m (some null) = good m.workspace
cwd_of m (some (str v)) =
    if strip v == "" then bad "'cwd' must be a non-empty string." else cwd_at m (m.resolved v)
cwd_of m (some _) = bad "'cwd' must be a non-empty string."

abbrev pub overlay : Fields → Dict String String → Option (Dict String String)
overlay end d = some d
overlay (field k (str v) rest) d = overlay rest (insert k v d)
overlay (field k _ rest) d = none

abbrev pub overlaid : Option (Dict String String) → Checked (Option (Dict String String))
overlaid none = bad "'env' must be an object of string values."
overlaid (some d) = good (some d)

-- `_environment`
unfoldable pub environment : Machine → Option Json → Checked (Option (Dict String String))
environment m none = good none
environment m (some null) = good none
environment m (some (obj fields)) = overlaid (overlay fields m.environ)
environment m (some _) = bad "'env' must be an object of string values."

abbrev pub stdin_of : Option Json → Checked (Option String)
stdin_of none = good none
stdin_of (some null) = good none
stdin_of (some (str s)) = good (some s)
stdin_of (some _) = bad "'stdin' must be a string."

abbrev pub background_of : Option Json → Checked Bool
background_of none = good false
background_of (some (bool b)) = good b
background_of (some _) = bad "'background' must be a boolean."

-- A process that is started.
pub record Launch : Type 0 where
  pub command : String
  pub cwd : Location
  pub env : Option (Dict String String)
  pub stdin : Option String
  pub background : Bool

pub data Answer : Type 0 where
  refuses : VerbOutcome → Answer
  launches : Launch → Answer

abbrev pub unless_denied : Option String → Launch → Answer
unless_denied (some reason) l = refuses (record {
  text = "Refused by sandbox rule: " <> (reason <> ". The command was not executed; rewrite it.");
  detail = field "refused" (bool true) (field "reason" (str reason) end);
})
unless_denied none l = launches l

abbrev pub checked :
    Machine
    → (command : String) → Checked Location
    → Checked (Option (Dict String String))
    → Checked (Option String)
    → Checked Bool
    → Answer
checked m c (bad e) env i b = refuses (says e)
checked m c (good cwd) (bad e) i b = refuses (says e)
checked m c (good cwd) (good env) (bad e) b = refuses (says e)
checked m c (good cwd) (good env) (good i) (bad e) = refuses (says e)
checked m c (good cwd) (good env) (good i) (good b) =
    if b && is_some i
    then refuses (says "'stdin' cannot be used with background: the command runs without input.")
    else unless_denied (refusal_reason m.sandbox.rules c) (record {
      command = wrap m.host m.sandbox c;
      cwd = cwd;
      env = env;
      stdin = i;
      background = b;
    })

abbrev pub run_text : Machine → Fields → Option Json → Answer
run_text m args (some (str c)) =
    if strip c == ""
    then refuses (says "shell requires a non-empty 'command'.")
    else checked m c (cwd_of m (get "cwd" args)) (environment m (get "env" args))
        (stdin_of (get "stdin" args)) (background_of (get "background" args))
run_text m args _ = refuses (says "shell requires a non-empty 'command'.")

-- `ShellVerb.execute`, up to `_foreground` or `_background`.
unfoldable pub shell_verb : Machine → Fields → Answer
unfolding get strip cwd_of environment refusal_reason wrap
shell_verb m args = run_text m args (get "command" args)

-- What a process that is started has been checked for.
pub record IsChecked (m : Machine) (args : Fields) (l : Launch) : Type 0 where
  pub written : String
  pub given : get "command" args ≡ some (str written)
  pub not_blank : (strip written == "") ≡ false
  pub wrapped : l.command ≡ wrap m.host m.sandbox written
  pub not_denied : All (λ (found, reason). found written ≡ false) m.sandbox.rules
  pub inside : is_relative_to l.cwd m.workspace ≡ true
  pub no_input : l.background ≡ true → l.stdin ≡ none

is_relative_to_refl : (p : Location) → is_relative_to p p ≡ true
is_relative_to_refl [] = refl
is_relative_to_refl (x ∷ p) = ground (arith, ==_refl x, is_relative_to_refl p)

cwd_at-inside :
    (m : Machine) (p q : Location) → cwd_at m p ≡ good q → is_relative_to q m.workspace ≡ true
cwd_at-inside m p q e = elim (Bool-cases (is_relative_to p m.workspace)) [
  | inl in_ ↦ elim (Bool-cases (m.is_dir p)) [
    | inl dir ↦
        let same : p ≡ q = ground arith in subst (λ r. is_relative_to r m.workspace ≡ true) same in_
    | inr file ↦ absurd (ground arith)
  ]
  | inr out ↦ absurd (ground arith)
]

cwd_of-inside :
    (m : Machine) (v : Option Json) (p : Location)
    → cwd_of m v ≡ good p
    → is_relative_to p m.workspace ≡ true
unfolding cwd_of
cwd_of-inside m none p e =
    let same : m.workspace ≡ p = ground arith in
    subst (λ r. is_relative_to r m.workspace ≡ true) same (is_relative_to_refl m.workspace)
cwd_of-inside m (some null) p e =
    let same : m.workspace ≡ p = ground arith in
    subst (λ r. is_relative_to r m.workspace ≡ true) same (is_relative_to_refl m.workspace)
cwd_of-inside m (some (str v)) p e = elim (Bool-cases (strip v == "")) [
  | inl blank ↦ absurd (ground arith)
  | inr given ↦ cwd_at-inside m (m.resolved v) p (ground arith)
]
cwd_of-inside m (some _) p e = absurd (ground arith)

no_stdin : (b : Bool) (i : Option String) → (b && is_some i) ≡ false → b ≡ true → i ≡ none
no_stdin b none h e = refl
no_stdin b (some i) h e = absurd (ground arith)

module _ (m : Machine) (args : Fields) (c : String) (at : get "command" args ≡ some (str c))
    (l : Launch) where
  allowed :
      (p : Location) (env : Option (Dict String String)) (i : Option String) (b : Bool)
      (o : Option String)
      → refusal_reason m.sandbox.rules c ≡ o
      → is_relative_to p m.workspace ≡ true
      → (strip c == "") ≡ false
      → (b ≡ true → i ≡ none)
      → unless_denied o (record {
        command = wrap m.host m.sandbox c;
        cwd = p;
        env = env;
        stdin = i;
        background = b;
      })
        ≡ launches l
      → IsChecked m args l
  allowed p env i b (some r) d h n q e = absurd (ground arith)
  allowed p env i b none d h n q e =
      let l' : Launch = record {
        command = wrap m.host m.sandbox c;
        cwd = p;
        env = env;
        stdin = i;
        background = b;
      } in
      let same : l' ≡ l = ground arith in
      subst (IsChecked m args) same (record {
        written = c;
        given = at;
        not_blank = n;
        wrapped = refl;
        not_denied = refusal_reason-none m.sandbox.rules c d;
        inside = h;
        no_input = q;
      })

  checked-IsChecked :
      (cwd : Checked Location) (env : Checked (Option (Dict String String)))
      (i : Checked (Option String)) (b : Checked Bool)
      → ((p : Location) → cwd ≡ good p → is_relative_to p m.workspace ≡ true)
      → (strip c == "") ≡ false
      → checked m c cwd env i b ≡ launches l
      → IsChecked m args l
  checked-IsChecked (bad x) env i b h n e = absurd (ground arith)
  checked-IsChecked (good p) (bad x) i b h n e = absurd (ground arith)
  checked-IsChecked (good p) (good env) (bad x) b h n e = absurd (ground arith)
  checked-IsChecked (good p) (good env) (good i) (bad x) h n e = absurd (ground arith)
  checked-IsChecked (good p) (good env) (good i) (good b) h n e =
      elim (Bool-cases (b && is_some i)) [
        | inl both ↦ absurd (ground arith)
        | inr fine ↦
            allowed p env i b (refusal_reason m.sandbox.rules c) refl (h p refl) n
              (no_stdin b i fine) (ground arith)
      ]

run_text-IsChecked :
    (m : Machine) (args : Fields) (l : Launch) (o : Option Json)
    → get "command" args ≡ o
    → run_text m args o ≡ launches l
    → IsChecked m args l
run_text-IsChecked m args l (some (str c)) at e = elim (Bool-cases (strip c == "")) [
  | inl blank ↦ absurd (ground arith)
  | inr given ↦
      checked-IsChecked m args c at l (cwd_of m (get "cwd" args)) (environment m (get "env" args))
        (stdin_of (get "stdin" args)) (background_of (get "background" args))
        (cwd_of-inside m (get "cwd" args)) given (ground arith)
]
run_text-IsChecked m args l o at e = absurd (ground arith)

-- A process that `shell` starts runs the sandbox's wrapping of the text in `command`, which is not blank and
-- which no deny rule finds; its directory is the workspace or inside it; and one in the background
-- has no input.
pub shell_verb-IsChecked :
    (m : Machine) (args : Fields) (l : Launch) → shell_verb m args ≡ launches l → IsChecked m args l
unfolding shell_verb
shell_verb-IsChecked m args l e = run_text-IsChecked m args l (get "command" args) refl e
