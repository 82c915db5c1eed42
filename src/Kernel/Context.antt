-- ===== src/Kernel/Context.antt =====
-- scr/kernel.py: the model's view of a conversation, and the tokens that a session has used.
use selfconnect_runtime.Base.{
  ℕ, ◌+◌, ◌-◌, String, Option, some, List, [], ◌∷◌, leb, eqb, if◌then◌else◌, string_eq, length,
  take, drop,
}
use selfconnect_runtime.State.{Message, Store, LedgerRow, get_messages}
use selfconnect_runtime.Ledger.{Codec, ledger_rows}
use selfconnect_runtime.Kernel.Events.{Event, model_call}
use selfconnect_runtime.Kernel.Env.{Kernel}
use selfconnect_runtime.Kernel.Text.{estimate_tokens, summarize}

-- The tokens of one ledger text, if it holds a `model_call`.
unfoldable pub tokens_of : Option Event → ℕ
tokens_of (some (model_call iteration sha calls in_tokens out_tokens)) = in_tokens + out_tokens
tokens_of _ = 0

unfoldable pub sum_tokens : Codec Event → List LedgerRow → ℕ
unfolding tokens_of
sum_tokens c [] = 0
sum_tokens c (r ∷ rows) = tokens_of (c.loads r.event) + sum_tokens c rows

-- `history[:-keep]` and `history[-keep:]`; for 0 both slices begin at the start.
abbrev pub split_recent : ℕ → List Message → List Message × List Message
split_recent keep history =
    if eqb keep 0
    then ([], history)
    else (take (length history - keep) history, drop (length history - keep) history)

module _ {W : Type 0} (k : Kernel W) where
  abbrev pub system_message : Message
  system_message = record { role = "system"; content = k.system_prompt }

  -- `_assemble_context` on the stored history.
  unfoldable pub compacted : List Message → List Message
  unfolding estimate_tokens summarize
  compacted history =
      if leb (estimate_tokens (system_message ∷ history)) k.guards.summarize_at_tokens
      then system_message ∷ history
      else if leb (length history) k.guards.summarize_keep_recent
      then system_message ∷ history
      else let (old, recent) = split_recent k.guards.summarize_keep_recent history in
        system_message ∷ record { role = "system"; content = summarize k.py old } ∷ recent

  unfoldable pub assemble_context : Store → String → List Message
  unfolding compacted get_messages
  assemble_context s session = compacted (get_messages s session)

  -- `_total_tokens`
  unfoldable pub total_tokens : Store → String → ℕ
  unfolding sum_tokens ledger_rows
  total_tokens s session = sum_tokens k.py.codec (ledger_rows s session)
