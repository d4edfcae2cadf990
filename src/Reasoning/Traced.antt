-- ===== src/Reasoning/Traced.antt =====
-- What a turn may call: the log only grows, every new call is permitted by the decision and is
-- made in the context of the turn, and there are no more new calls than the result reports.
use mathlib.Core.List.{append-nil, append_assoc}
use kb_concierge.Prelude.{
  ℕ, ◌+◌, ◌≤◌, String, ◌≡◌, refl, sym, ap, ◌∙◌, ◌⊎◌, inl, inr, Bool, true, false, Option, List, [],
  ◌∷◌, ◌++◌, arith, length, length-append, All, All-append, Bool-cases, if◌then◌else◌, Fields,
  has_str,
}
use kb_concierge.Policy.Engine.{PolicyDecision}
use kb_concierge.Reasoning.Calls.{
  Env, ToolContext, ToolResult, Call, Log, M, pure, ◌>>=◌, call, call_tool, Observation, LoopResult,
}

-- `log'` is `log` with at most `n` more calls, each of which satisfies `P`.
abbrev pub Grows : (Call → Type 0) → ℕ → Log → Log → Type 0
Grows P n log log' = (new : List Call) × (log' ≡ log ++ new) × All P new × (length new ≤ n)

module _ {P : Call → Type 0} where
  pub Grows-same : (n : ℕ) (log : Log) → Grows P n log log
  Grows-same n log = ([], sym (append-nil log), tt, omega arith)

  pub Grows-trans :
      (a b : ℕ) (log mid log' : Log)
      → Grows P a log mid
      → Grows P b mid log'
      → Grows P (a + b) log log'
  Grows-trans a b log mid log' (xs, e, p, l) (ys, f, q, k) = (
    xs ++ ys,
    f ∙ (ap (λ t. t ++ ys) e ∙ append_assoc log xs ys),
    All-append P xs ys (p, q),
    omega (arith, length-append xs ys),
  )

  pub Grows-weaken : (a b : ℕ) (log log' : Log) → a ≤ b → Grows P a log log' → Grows P b log log'
  Grows-weaken a b log log' h (xs, e, p, l) = (xs, e, p, omega arith)

-- A call to a tool by name, in a context.
abbrev pub Names : String → ToolContext → Call → Type 0
Names name context c = (c.tool ≡ name) × (c.context ≡ context)

-- A call that a decision permits: a tool that it allows, or `kb.answer` in place of `kb.search`.
abbrev pub Permitted : PolicyDecision → ToolContext → Call → Type 0
Permitted d context c =
    ((has_str c.tool d.allowed_tools ≡ true)
      ⊎ ((c.tool ≡ "kb.answer") × (has_str "kb.search" d.allowed_tools ≡ true)))
    × (c.context ≡ context)

module _ {P : Call → Type 0} (env : Env) where
  pub call-Grows :
      (name : String) (payload : Fields) (context : ToolContext) (log : Log)
      → ((c : Call) → Names name context c → P c)
      → Grows P 1 log (call env name payload context log).1
  unfolding call
  call-Grows name payload context log holds = elim (Bool-cases (env.registered name)) [
    | inl known ↦ rw known (made ∷ [], refl, (holds made (refl, refl), tt), omega arith)
    | inr unknown ↦ rw unknown (Grows-same 1 log)
  ]
    where
      made : Call
      made = record { tool = name; payload = payload; context = context }

  pub call_tool-Grows :
      (name : String) (payload : Fields) (context : ToolContext) (log : Log)
      → ((c : Call) → Names name context c → P c)
      → Grows P 1 log (call_tool env name payload context log).1
  unfolding call_tool
  call_tool-Grows name payload context log holds = call-Grows name payload context log holds

-- A handler whose result reports at least the calls that it made.
abbrev pub IsTraced : (Call → Type 0) → M LoopResult → Type 0
IsTraced P m = (log : Log) → Grows P (m log).0.tool_calls log (m log).1

pub pure-IsTraced : {P : Call → Type 0} (r : LoopResult) → IsTraced P (pure r)
pure-IsTraced r log = Grows-same r.tool_calls log

pub if-IsTraced :
    {P : Call → Type 0} (b : Bool) (m n : M LoopResult)
    → (b ≡ true → IsTraced P m)
    → (b ≡ false → IsTraced P n)
    → IsTraced P (if b then m else n)
if-IsTraced true m n hm hn = hm refl
if-IsTraced false m n hm hn = hn refl

-- One call, and a result that reports it.
pub after_call-IsTraced :
    {P : Call → Type 0} (env : Env) (name : String) (payload : Fields) (context : ToolContext)
    (f : Option ToolResult → LoopResult)
    → ((c : Call) → Names name context c → P c)
    → ((r : Option ToolResult) → (f r).tool_calls ≡ 1)
    → IsTraced P (call env name payload context >>= λ r. pure (f r))
after_call-IsTraced env name payload context f holds one log =
    rw (one (call env name payload context log).0) (call-Grows env name payload context log holds)

-- The same through `_call_tool`.
pub after_call_tool-IsTraced :
    {P : Call → Type 0} (env : Env) (name : String) (payload : Fields) (context : ToolContext)
    (f : Fields × Observation → LoopResult)
    → ((c : Call) → Names name context c → P c)
    → ((r : Fields × Observation) → (f r).tool_calls ≡ 1)
    → IsTraced P (call_tool env name payload context >>= λ r. pure (f r))
after_call_tool-IsTraced env name payload context f holds one log =
    rw (one (call_tool env name payload context log).0)
      (call_tool-Grows env name payload context log holds)
