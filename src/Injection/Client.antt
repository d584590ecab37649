-- ===== src/Injection/Client.antt =====
-- nan/injection/client.py, and the entry of nan/injection/types.py. What a service answers to one
-- POST is a parameter; so is the clock, read before and after it. A budget is in thousandths of a
-- second, as every float.
use nan_itself.Base.{
  ℕ, String, Bool, true, false, not, ◌||◌, Option, none, some, List, map, ◌==◌, string_eq, nat_eq,
  select,
}
use nan_itself.Turn.Model.{Turn, Injection}

pub data ServiceMode : Type 0 where
  inject archive : ServiceMode

pub record ServiceEntry : Type 0 where
  pub service_id : String
  pub endpoint : String
  pub mode : ServiceMode
  pub last_seen : ℕ
  pub timeout : Option ℕ

-- How one delivery ends: a reply with `{"text": text}`, or an exception, which a bad status, a
-- body that is no JSON object and one without a text are too. The exception is its
-- `{type(exc).__name__}: {exc}`.
pub data Answer : Type 0 where
  replied : (text : String) → Answer
  failed : (error : String) → Answer

-- One delivery: its answer, and the times at which it began and ended.
pub record Post : Type 0 where
  pub started : ℕ
  pub answer : Answer
  pub ended : ℕ

-- The service's side: what becomes of a turn that is sent to an entry under a read budget.
abbrev pub Network : Type 0
Network = ServiceEntry → (budget : ℕ) → Turn → Post

abbrev pub read_budget : (default : ℕ) → ServiceEntry → ℕ
read_budget default entry = elim entry.timeout [ none ↦ default | some t ↦ t ]

abbrev contribution : ServiceEntry → Post → Answer → Injection
contribution entry p (replied text) = record {
  service_id = entry.service_id;
  text = text;
  started_at = p.started;
  ended_at = p.ended;
  ok = true;
}
contribution entry p (failed error) = record {
  service_id = entry.service_id;
  text = error;
  started_at = p.started;
  ended_at = p.ended;
  ok = false;
}

-- `ask`, in `InjectionClient.inject`
unfoldable pub ask : Network → (default : ℕ) → Turn → ServiceEntry → Injection
ask network default turn entry =
    let p = network entry (read_budget default entry) turn in contribution entry p p.answer

-- `r.ok is False or r.text`
abbrev pub kept : Injection → Bool
kept i = not i.ok || not (i.text == "")

-- `InjectionClient.inject`: every service is asked, and empty contributions are dropped.
unfoldable pub client_inject : Network → (default : ℕ) → Turn → List ServiceEntry → List Injection
client_inject network default turn services = select kept (map (ask network default turn) services)
