-- ===== src/Team.antt =====
-- scr/team.py: the `delegate` tool of one agent, with its policy. The events that the tool appends to the
-- ledger of its agent's session are kept as the list `log`; each text that it returns is a constructor.
-- `run` of the child and the cancel flag are functions of the world, and a child's result is a text. The
-- progress callback is left out.
pub mod Promises
pub mod Returns
pub mod Service
pub mod Finalizing
pub mod Loading
use selfconnect_runtime.Base.{
  ℕ, ◌+◌, String, Bool, true, false, not, ◌&&◌, ◌||◌, Option, none, some, List, [], ◌∷◌, ◌++◌, ltb,
  leb, eqb, if◌then◌else◌, string_eq, ◌==◌, contains, filter, Dict, lookup, insert, Result, ok, err,
}
use selfconnect_runtime.State.{Store, StopReason, completed, mailbox_send}
use selfconnect_runtime.Kernel.{World}
use selfconnect_runtime.Kernel.Events.{Event, cap_denied, tool_exec}
use selfconnect_runtime.Capability.{Os, CapabilityManifest}
use selfconnect_runtime.Orchestration.{Team, TeamError, key_error, denied, effective_manifest}

-- `delegation_policy` of an agent
pub record DelegationPolicy : Type 0 where
  pub required_children : List String
  pub max_delegations_per_child : Option ℕ
  pub no_redelegate_after_denial : Bool
  pub require_nonempty_result : Bool

pub data Direction : Type 0 where
  as_task : Direction
  as_result : Direction

pub data Decision : Type 0 where
  refused_again : Decision
  refused_more : Decision
  marked_denied : Decision
  not_counted : Decision
  counted : Decision

pub data Refusal : Type 0 where
  not_a_delegate : Refusal
  depth_limit : Refusal
  severed : TeamError → Refusal

-- The events of types "delegate_denied", "policy", "delegate" and "mailbox"
pub data TeamEvent : Type 0 where
  delegate_denied : (parent child : String) (reason : Refusal) → TeamEvent
  policy : (parent child : String) (decision : Decision) → TeamEvent
  delegate : (parent child team_id eff_cap_sha256 : String) (depth : ℕ) → TeamEvent
  mailbox : (sender receiver : String) (direction : Direction) (body_sha256 : String) → TeamEvent

-- The store and the world, the ledger of the agent's session, and `kernel_policy_state`
pub record Desk (W : Type 0) : Type 0 where
  pub world : World W
  pub log : List TeamEvent
  pub count : Dict String ℕ
  pub finished : List String
  pub failed : List (String × String)

-- What the tool reads of a child's run: the result, and the events of the child's session
pub record ChildRun : Type 0 where
  pub final_text : String
  pub stopped_reason : StopReason
  pub events : List Event

pub data Reply : Type 0 where
  cancelled_reply : Reply
  refused : Refusal → Reply
  refused_by_policy : Decision → Reply
  returned : String → Reply

-- An exception that leaves the tool: one of `effective_manifest` that is no DelegationError, or one of
-- the child's run. The desk keeps what was written before it.
pub data ToolError : Type 0 where
  unhandled : TeamError → ToolError
  child_raised : ToolError

abbrev pub is_completed : StopReason → Bool
is_completed reason = elim reason [ completed ↦ true | _ ↦ false ]

-- The two counters of `_child_all_denied`
unfoldable pub count_denied : List Event → ℕ
count_denied [] = 0
count_denied (e ∷ es) = elim e [
  | cap_denied tool reason ↦ 1 + count_denied es
  | _ ↦ count_denied es
]

unfoldable pub count_execed : List Event → ℕ
count_execed [] = 0
count_execed (e ∷ es) = elim e [
  | tool_exec tool args out idem parallel primary ↦ 1 + count_execed es
  | _ ↦ count_execed es
]

unfoldable pub child_all_denied : List Event → Bool
unfolding count_denied count_execed
child_all_denied es = ltb 0 (count_denied es) && eqb (count_execed es) 0

-- `state["count"].get(child, 0)`
unfoldable pub count_of : Dict String ℕ → String → ℕ
unfolding lookup
count_of d child = elim (lookup child d) [ none ↦ 0 | some n ↦ n ]

abbrev pub has_pair : List (String × String) → String → String → Bool
has_pair [] a b = false
has_pair (p ∷ ps) a b = (p.0 == a && p.1 == b) || has_pair ps a b

-- `_finalize_guard`: the required children that are missing, for the refusal.
unfoldable pub finalize_guard : {W : Type 0} → DelegationPolicy → Desk W → Option (List String)
unfolding filter
finalize_guard p desk =
    let missing = filter (λ c. not (contains desk.finished c)) p.required_children in
    elim missing [ [] ↦ none | c ∷ cs ↦ some (c ∷ cs) ]

abbrev pub record_event : {W : Type 0} → TeamEvent → Desk W → Desk W
record_event e desk = record desk { log = desk.log ++ e ∷ [] }

-- The agent whose tool it is, and what the code takes of its libraries: the hash of a text and of a
-- manifest, the text on a child that stopped, and `strip`.
pub record Desks (W : Type 0) : Type 0 where
  pub parent : String
  pub team_id : String
  pub depth : ℕ
  pub max_depth : ℕ
  pub policy : DelegationPolicy
  pub sha256 : String → String
  pub eff_hash : CapabilityManifest → String
  pub stopped_text : String → StopReason → String
  pub strip : String → String
  pub cancelled : World W → Bool
  -- `none` where the child's run raises
  pub run_child : String → String → World W → Option ChildRun × World W

-- `max_per is not None and state["count"].get(child, 0) >= int(max_per)`
unfoldable pub is_exhausted : Option ℕ → ℕ → Bool
is_exhausted none n = false
is_exhausted (some most) n = leb most n

-- `team.edges.get(parent, [])`
abbrev pub delegates_of : Option (List String) → List String
delegates_of none = []
delegates_of (some children) = children

module _ {W : Type 0} (k : Desks W) where
  -- `_deliver`
  unfoldable pub deliver : String → String → String → Direction → Desk W → Desk W
  unfolding mailbox_send
  deliver sender receiver body direction desk =
      record_event (mailbox sender receiver direction (k.sha256 body)) (record desk {
        world = record desk.world {
          store = mailbox_send desk.world.store k.team_id sender receiver body;
        };
      })

  -- The text that the parent reads
  unfoldable pub child_text : String → ChildRun → String
  child_text child run =
      if run.final_text == "" && not (is_completed run.stopped_reason)
      then k.stopped_text child run.stopped_reason
      else run.final_text

  -- The three outcomes of a child's run
  unfoldable pub settle : String → String → ChildRun → Desk W → Desk W
  unfolding child_all_denied child_text
  settle child subtask run desk =
      if child_all_denied run.events
      then record_event (policy k.parent child marked_denied)
          (record desk { failed = (child, k.sha256 subtask) ∷ desk.failed })
      else if k.policy.require_nonempty_result && k.strip (child_text child run) == ""
      then record_event (policy k.parent child not_counted) desk
      else record_event (policy k.parent child counted)
          (record desk { finished = child ∷ desk.finished })

  -- The part of the tool after the child's run: `opened` is the desk before it.
  unfoldable pub conclude_child :
      String → String → Desk W → Option ChildRun × World W → Result ToolError Reply × Desk W
  unfolding deliver settle child_text count_of insert
  conclude_child child subtask opened (none, world) =
      (err child_raised, record opened { world = world })
  conclude_child child subtask opened (some run, world) =
      let counted_up = record opened {
        world = world;
        count = insert child (count_of opened.count child + 1) opened.count;
      } in
      (
        ok (returned (child_text child run)),
        deliver child k.parent (child_text child run) as_result
            (settle child subtask run counted_up),
      )

  -- From `led.append` of the "delegate" event to the end
  unfoldable pub run_delegate :
      String → String → CapabilityManifest → Desk W → Result ToolError Reply × Desk W
  unfolding deliver conclude_child
  run_delegate child subtask eff desk =
      let opened =
        deliver k.parent child subtask as_task
          (record_event (delegate k.parent child k.team_id (k.eff_hash eff) (k.depth + 1)) desk) in
      conclude_child child subtask opened (k.run_child child subtask opened.world)

  -- `except DelegationError`: an error of another class leaves the tool.
  unfoldable pub refuse_severed : String → Desk W → TeamError → Result ToolError Reply × Desk W
  refuse_severed child desk (key_error name) = (err (unhandled (key_error name)), desk)
  refuse_severed child desk (denied d) = (err (unhandled (denied d)), desk)
  refuse_severed child desk e =
      (ok (refused (severed e)), record_event (delegate_denied k.parent child (severed e)) desk)

  module _ (os : Os) where
    -- From `team.effective_manifest` on
    unfoldable pub try_delegate : Team → String → String → Desk W → Result ToolError Reply × Desk W
    unfolding effective_manifest run_delegate refuse_severed
    try_delegate team child subtask desk = elim (effective_manifest os team child) [
      | ok eff ↦ run_delegate child subtask eff desk
      | err e ↦ refuse_severed child desk e
    ]

    -- The two tests of the policy
    unfoldable pub check_policy : Team → String → String → Desk W → Result ToolError Reply × Desk W
    unfolding try_delegate is_exhausted count_of
    check_policy team child subtask desk =
        if k.policy.no_redelegate_after_denial && has_pair desk.failed child (k.sha256 subtask)
        then (
          ok (refused_by_policy refused_again),
          record_event (policy k.parent child refused_again) desk,
        )
        else if is_exhausted k.policy.max_delegations_per_child (count_of desk.count child)
        then (
          ok (refused_by_policy refused_more),
          record_event (policy k.parent child refused_more) desk,
        )
        else try_delegate team child subtask desk

    -- `fn` of the tool
    unfoldable pub delegate_fn : Team → String → String → Desk W → Result ToolError Reply × Desk W
    unfolding check_policy lookup
    delegate_fn team child subtask desk =
        if k.cancelled desk.world
        then (ok cancelled_reply, desk)
        else if not (contains (delegates_of (lookup k.parent team.edges)) child)
        then (
          ok (refused not_a_delegate),
          record_event (delegate_denied k.parent child not_a_delegate) desk,
        )
        else if ltb k.max_depth (k.depth + 1)
        then (
          ok (refused depth_limit),
          record_event (delegate_denied k.parent child depth_limit) desk,
        )
        else check_policy team child subtask desk
