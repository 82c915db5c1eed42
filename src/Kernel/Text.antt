-- ===== src/Kernel/Text.antt =====
-- scr/kernel.py: the keys, signatures and texts that the kernel computes.
use Prim.Native.Char.{code}
use Prim.Native.Nat.{Ordering}
use Prim.Native.String
use Prim.Native.String.{count}
use selfconnect_runtime.Base.{
  ℕ, zero, suc, ◌+◌, ◌/◌, String, ◌<>◌, Bool, true, false, ◌&&◌, ◌||◌, Option, none, some, List, [],
  ◌∷◌, ◌++◌, map, eqb, if◌then◌else◌, string_eq, ◌==◌, length, lookup,
}
use selfconnect_runtime.Gateway.{
  Json, text, number, object, Fields, end, field, Arguments, ToolCall,
}
use selfconnect_runtime.Capability.{
  Denied, unknown_level, alternate_stream, outside_roots, tool_not_permitted, no_read_capability,
  no_write_capability, host_not_permitted, exec_not_permitted, exceeds_ceiling, unknown_tool,
  join_args,
}
use selfconnect_runtime.State.{Message}
use selfconnect_runtime.Kernel.Env.{
  Python, FailureKind, network, os_error, other_error, Outcome, returned, raised,
}

-- `s[:n]`
unfoldable pub clip : ℕ → String → String
clip zero s = ""
clip (suc n) String.[] = ""
clip (suc n) (String.◌∷◌ c s) = String.◌∷◌ c (clip n s)

-- `sep.join(parts)`
unfoldable pub join : String → List String → String
join sep [] = ""
join sep (a ∷ []) = a
join sep (a ∷ b ∷ rest) = a <> (sep <> join sep (b ∷ rest))

-- A dict of texts to values as a JSON object.
unfoldable pub fields_of : Arguments → Fields
fields_of [] = end
fields_of ((k, v) ∷ args) = field k v (fields_of args)

-- The text after a prefix, if the text begins with it.
unfoldable pub after_prefix : String → String → Option String
after_prefix String.[] s = some s
after_prefix (String.◌∷◌ c p) String.[] = none
after_prefix (String.◌∷◌ c p) (String.◌∷◌ d s) =
    let rest = after_prefix p s in if eqb (code c) (code d) then rest else none

-- `s.split("]", 1)[0]`
unfoldable pub until_bracket : String → String
until_bracket String.[] = ""
until_bracket (String.◌∷◌ c s) =
    let rest = until_bracket s in if eqb (code c) b']' then "" else String.◌∷◌ c rest

-- `" ".join(s.split())`: `started` tells that a word was written, `gap` that space came after it.
unfoldable pub collapse : (ℕ → Bool) → Bool → Bool → String → String
collapse is_space started gap String.[] = ""
collapse is_space started gap (String.◌∷◌ c s) =
    let skipped = collapse is_space started true s in
    let kept = String.◌∷◌ c (collapse is_space true false s) in
    if is_space (code c) then skipped else if started && gap then " " <> kept else kept

-- `sum(len(m["content"]) for m in messages)`
unfoldable pub content_length : List Message → ℕ
content_length [] = 0
content_length (m ∷ messages) = count m.content + content_length messages

-- `_estimate_tokens`
unfoldable pub estimate_tokens : List Message → ℕ
unfolding content_length
estimate_tokens messages = content_length messages / 4

unfoldable pub place_text : String → List String → List String
place_text s [] = s ∷ []
place_text s (t ∷ ts) =
    let rest = place_text s ts in
    elim (String.compare s t) [ Ordering.gt ↦ t ∷ rest | _ ↦ s ∷ t ∷ ts ]

-- `sorted` of texts
unfoldable pub sorted : List String → List String
sorted [] = []
sorted (s ∷ ts) = place_text s (sorted ts)

-- The keys of `_arg_path` in their order.
abbrev pub primary_keys : List String
primary_keys = "path" ∷ "bundle" ∷ "url" ∷ "binary" ∷ []

abbrev pub primary_of : String → Option Json → List (String × String)
primary_of key (some (text v)) = if v == "" then [] else (key, clip 300 v) ∷ []
primary_of key _ = []

-- `_arg_path`
unfoldable pub arg_path : Arguments → List String → List (String × String)
unfolding lookup
arg_path args [] = []
arg_path args (key ∷ keys) = primary_of key (lookup key args) ++ arg_path args keys

-- `str(e)` of a CapabilityDenied.
unfoldable pub denied_text : Python → Denied → String
denied_text py (unknown_level level) = "unknown classification level: " <> py.repr level
denied_text py (alternate_stream part) =
    "alternate data stream syntax rejected: " <> py.repr_codes part
denied_text py (outside_roots path) = "path outside allowed roots: " <> py.repr path
denied_text py (tool_not_permitted name) = "tool not permitted: " <> py.repr name
denied_text py no_read_capability = "no filesystem read capability"
denied_text py no_write_capability = "no filesystem write capability"
denied_text py (host_not_permitted host) = "network host not permitted: " <> py.repr host
denied_text py (exec_not_permitted binary args) =
    "exec not permitted: " <> (binary <> (" " <> join_args args))
denied_text py (exceeds_ceiling level ceiling) =
    "classification " <> (py.repr level <> (" exceeds ceiling " <> py.repr ceiling))
denied_text py (unknown_tool name) = "unknown tool: " <> py.repr name

-- `_is_transient`
unfoldable pub is_transient : FailureKind → Bool
is_transient network = true
is_transient (os_error none) = false
is_transient (os_error (some w)) = eqb w 10053 || eqb w 10054 || eqb w 10060 || eqb w 10061
is_transient other_error = false

-- `_run_tool_fn`, for what the tool's function ended with.
unfoldable pub tool_text : ToolCall → Outcome String → String
unfolding clip
tool_text call (returned result) = result
tool_text call (raised e) =
    "TOOL ERROR [tool_exception]: "
    <> (e.class_name <> (": " <> (clip 200 e.detail <> (" (tool=" <> (call.name <> ")")))))

-- The class in a text that begins with "TOOL ERROR [".
unfoldable pub error_class : String → Option String
unfolding after_prefix until_bracket
error_class result = elim (after_prefix "TOOL ERROR [" result) [
  | none ↦ none
  | some rest ↦ some (until_bracket rest)
]

module _ (py : Python) where
  open py use {codec}

  abbrev pub sha256 : String → String
  sha256 = codec.sha256

  abbrev pub number_of : ℕ → Json
  number_of n = number (codec.decimal n)

  -- `_idem_key`
  unfoldable pub idem_key : String → ℕ → String → Arguments → String
  unfolding fields_of
  idem_key session seq tool args = sha256 (
      py.dumps_compact (
        object (
          field "s" (text session) (
            field "q" (number_of seq)
              (field "t" (text tool) (field "a" (object (fields_of args)) end))))))

  -- One entry of `_cycle_signature`.
  unfoldable pub call_signature : ToolCall → String
  unfolding fields_of
  call_signature call =
      py.dumps_compact
        (object (field "n" (text call.name) (field "a" (object (fields_of call.arguments)) end)))

  unfoldable pub cycle_signature : List ToolCall → String
  unfolding call_signature sorted join
  cycle_signature calls = sha256 (join "|" (sorted (map call_signature calls)))

  -- `_approval_id`
  unfoldable pub approval_id : String → ToolCall → String
  unfolding fields_of
  approval_id session call = sha256 (
      py.dumps_compact (
        object (
          field "s" (text session) (
            field "t" (text call.name)
              (field "a" (object (fields_of call.arguments)) (field "c" (text call.id) end))))))

  -- `hashlib.sha256(json.dumps(call.arguments, sort_keys=True).encode()).hexdigest()`
  unfoldable pub args_sha256 : Arguments → String
  unfolding fields_of
  args_sha256 args = sha256 (py.dumps_sorted (object (fields_of args)))

  -- The content that `_add_tool_msg` stores.
  unfoldable pub tool_message : ToolCall → String → String
  tool_message call result = py.dumps_plain (
      object (
        field "tool" (text call.name)
          (field "id" (text call.id) (field "result" (text result) end))))

  -- One part of `_summarize`.
  unfoldable pub summary_part : Message → String
  unfolding collapse clip
  summary_part m = m.role <> (": " <> clip 160 (collapse py.is_space false false m.content))

  -- `_summarize`
  unfoldable pub summarize : List Message → String
  unfolding summary_part join clip
  summarize msgs = clip 4000 (
      "[SUMMARY of "
      <> (codec.decimal (length msgs)
          <> (" earlier messages] " <> join " | " (map summary_part msgs))))
