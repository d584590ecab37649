-- ===== src/Execution/Sandbox.antt =====
-- nan/execution/sandbox.py. Regexes, `shlex.quote`, the platform and the file system are arguments.
use nan_itself.Base.{
  ℕ, suc, String, ◌<>◌, ◌≡◌, refl, subst, inl, inr, Bool, true, false, not, ◌&&◌, Option, none,
  some, List, [], ◌∷◌, ◌++◌, map, arith, if◌then◌else◌, is_some, Bool-cases, ◌==◌, contains,
  string_eq, nat_eq, All,
}
use nan_itself.Base.Text.{join}

-- `DenyRule`, and what `re.compile` makes of one.
pub record DenyRule : Type 0 where
  pub pattern : String
  pub reason : String

abbrev pub Rule : Type 0
Rule = (String → Bool) × String

pub data Compiled : Type 0 where
  compiled : List Rule → Compiled
  invalid : (index : ℕ) → Compiled

abbrev pub compile_rest : (String → Bool) → (reason : String) → Compiled → Compiled
compile_rest found reason (compiled rules) = compiled ((found, reason) ∷ rules)
compile_rest found reason (invalid index) = invalid index

abbrev pub compile_next : Option (String → Bool) → (reason : String) → ℕ → Compiled → Compiled
compile_next none reason index rest = invalid index
compile_next (some found) reason index rest = compile_rest found reason rest

-- `_compile_deny_rules`, from the rule `index` on.
unfoldable pub compile_deny_rules :
    (re : String → Option (String → Bool)) → (index : ℕ) → List DenyRule → Compiled
compile_deny_rules re index [] = compiled []
compile_deny_rules re index (r ∷ rs) =
    compile_next (re r.pattern) r.reason index (compile_deny_rules re (suc index) rs)

-- `refusal_reason`
unfoldable pub refusal_reason : List Rule → (command : String) → Option String
refusal_reason [] command = none
refusal_reason ((found, reason) ∷ rules) command =
    let rest = refusal_reason rules command in if found command then some reason else rest

pub data Tool : Type 0 where
  sandbox_exec : Tool
  bwrap : Tool

pub record Host : Type 0 where
  pub platform : String
  pub is_linux : Bool
  pub which : String → Bool
  pub quote : String → String
  pub temp : String
  pub resolve : String → String
  pub exists_path : String → Bool

-- `_detect_tool`
unfoldable pub detect_tool : Host → Option Tool
detect_tool h =
    if h.platform == "darwin" && h.which "sandbox-exec"
    then some sandbox_exec
    else if h.is_linux && h.which "bwrap"
    then some bwrap
    else none

pub record Settings : Type 0 where
  pub workspace : String
  pub package_dir : String
  pub builtin_dir : String
  pub required : Bool
  pub deny : List DenyRule

pub record Sandbox : Type 0 where
  pub settings : Settings
  pub tool : Option Tool
  pub rules : List Rule

pub data Built : Type 0 where
  built : Sandbox → Built
  invalid_rule : (index : ℕ) → Built
  unavailable : Built

abbrev pub build_with : Settings → Option Tool → Compiled → Built
build_with c tool (invalid index) = invalid_rule index
build_with c tool (compiled rules) =
    if c.required && not (is_some tool)
    then unavailable
    else built (record { settings = c; tool = tool; rules = rules })

-- `Sandbox(settings)`
unfoldable pub build : (re : String → Option (String → Bool)) → Host → Settings → Built
unfolding detect_tool compile_deny_rules
build re h c = build_with c (detect_tool h) (compile_deny_rules re 0 c.deny)

-- `dict.fromkeys(xs)`, as a list
abbrev pub from_keys : List String → List String → List String
from_keys seen [] = seen
from_keys seen (x ∷ xs) = from_keys (if contains seen x then seen else seen ++ x ∷ []) xs

abbrev pub subpath : String → String
subpath p = "    (subpath \"" <> (p <> "\")")

-- `_seatbelt_profile`
unfoldable pub seatbelt_profile : Host → Settings → String
seatbelt_profile h c =
    join "\n" (
      ("(version 1)" ∷ "(deny default)" ∷ "(allow file-read*)" ∷ "(allow file-write*" ∷ [])
      ++ (map subpath (
            from_keys []
              (h.resolve c.workspace ∷ "/private/tmp" ∷ "/var/folders" ∷ h.resolve h.temp ∷ []))
          ++ ("    (literal \"/dev/null\")"
              ∷ "    (literal \"/dev/dtrace-helper\")"
              ∷ ")"
              ∷ "(deny file-write*"
              ∷ subpath (h.resolve c.package_dir)
              ∷ subpath (h.resolve c.builtin_dir)
              ∷ ")"
              ∷ "(allow network*)"
              ∷ "(allow process*)"
              ∷ "(allow file-ioctl)"
              ∷ "(allow sysctl-read)"
              ∷ "(allow mach-lookup)"
              ∷ "(allow system-socket)"
              ∷ "(allow iokit-get-properties)"
              ∷ [])))
    <> "\n"

abbrev pub bound : (option : String) → Host → String → String
bound option h p = option <> (" " <> (h.quote (h.resolve p) <> (" " <> h.quote (h.resolve p))))

-- `_bwrap_command`
unfoldable pub bwrap_command : Host → Settings → String → String
bwrap_command h c command = join " " (
    ("bwrap"
      ∷ "--ro-bind / /"
      ∷ "--dev-bind /dev /dev"
      ∷ "--proc /proc"
      ∷ "--tmpfs /tmp"
      ∷ bound "--bind" h c.workspace
      ∷ bound "--ro-bind" h c.package_dir
      ∷ [])
    ++ ((if h.exists_path c.builtin_dir then bound "--ro-bind" h c.builtin_dir ∷ [] else [])
        ++ ("--" ∷ "bash" ∷ "-c" ∷ h.quote command ∷ [])))

abbrev pub wrap_in : Host → Settings → Option Tool → String → String
wrap_in h c none command = command
wrap_in h c (some sandbox_exec) command =
    "sandbox-exec -p " <> (h.quote (seatbelt_profile h c) <> (" bash -c " <> h.quote command))
wrap_in h c (some bwrap) command = bwrap_command h c command

-- `wrap`, but for its one warning.
unfoldable pub wrap : Host → Sandbox → String → String
unfolding seatbelt_profile bwrap_command
wrap h s command = wrap_in h s.settings s.tool command

-- A command may run where no rule finds it.
pub refusal_reason-none :
    (rules : List Rule) (command : String)
    → refusal_reason rules command ≡ none
    → All (λ (found, reason). found command ≡ false) rules
unfolding refusal_reason
refusal_reason-none [] command e = tt
refusal_reason-none ((found, reason) ∷ rules) command e = elim (Bool-cases (found command)) [
  | inl hit ↦ absurd (ground arith)
  | inr miss ↦ (miss, refusal_reason-none rules command (ground arith))
]

-- The rules are those that are compiled, in order.
abbrev pub Compiles : (re : String → Option (String → Bool)) → List DenyRule → List Rule → Type 0
Compiles re [] [] = Unit
Compiles re (r ∷ rs) ((found, reason) ∷ rules) =
    (re r.pattern ≡ some found) × (reason ≡ r.reason) × Compiles re rs rules
Compiles re _ _ = ⊥

next-Compiles :
    (re : String → Option (String → Bool)) (index : ℕ) (d : DenyRule) (ds : List DenyRule)
    (o : Option (String → Bool)) (rest : Compiled) (rules : List Rule)
    → re d.pattern ≡ o
    → ((rs : List Rule) → rest ≡ compiled rs → Compiles re ds rs)
    → compile_next o d.reason index rest ≡ compiled rules
    → Compiles re (d ∷ ds) rules
next-Compiles re index d ds none rest rules h ih e = absurd (ground arith)
next-Compiles re index d ds (some found) (invalid i) rules h ih e = absurd (ground arith)
next-Compiles re index d ds (some found) (compiled rs) rules h ih e =
    let same : (found, d.reason) ∷ rs ≡ rules = ground arith in
    subst (Compiles re (d ∷ ds)) same (h, refl, ih rs refl)

compile_deny_rules-Compiles :
    (re : String → Option (String → Bool)) (index : ℕ) (ds : List DenyRule) (rules : List Rule)
    → compile_deny_rules re index ds ≡ compiled rules
    → Compiles re ds rules
unfolding compile_deny_rules
compile_deny_rules-Compiles re index [] rules e =
    let same : [] ≡ rules = ground arith in subst (Compiles re []) same tt
compile_deny_rules-Compiles re index (d ∷ ds) rules e =
    next-Compiles re index d ds (re d.pattern) (compile_deny_rules re (suc index) ds) rules refl
      (compile_deny_rules-Compiles re (suc index) ds) e

-- What a sandbox that was built is.
pub record IsBuilt (re : String → Option (String → Bool)) (h : Host) (c : Settings) (s : Sandbox)
    : Type 0 where
  pub of_settings : s.settings ≡ c
  pub of_host : s.tool ≡ detect_tool h
  pub denies : Compiles re c.deny s.rules
  pub confined : c.required ≡ true → is_some s.tool ≡ true

build_with-IsBuilt :
    (re : String → Option (String → Bool)) (h : Host) (c : Settings) (s : Sandbox) (o : Compiled)
    → compile_deny_rules re 0 c.deny ≡ o
    → build_with c (detect_tool h) o ≡ built s
    → IsBuilt re h c s
build_with-IsBuilt re h c s (invalid i) r e = absurd (ground arith)
build_with-IsBuilt re h c s (compiled rules) r e =
    elim (Bool-cases (c.required && not (is_some (detect_tool h)))) [
      | inl no_tool ↦ absurd (ground arith)
      | inr fine ↦
          let made : Sandbox = record { settings = c; tool = detect_tool h; rules = rules } in
          let same : made ≡ s = ground arith in
          subst (IsBuilt re h c) same (record {
            of_settings = refl;
            of_host = refl;
            denies = compile_deny_rules-Compiles re 0 c.deny rules r;
            confined = λ q. ground arith;
          })
    ]

-- A sandbox that is built has its settings, the tool that is found and every deny rule of the settings
-- compiled, with its reason and in order; and it has a tool if the settings require one.
pub build-IsBuilt :
    (re : String → Option (String → Bool)) (h : Host) (c : Settings) (s : Sandbox)
    → build re h c ≡ built s
    → IsBuilt re h c s
unfolding build
build-IsBuilt re h c s e = build_with-IsBuilt re h c s (compile_deny_rules re 0 c.deny) refl e
