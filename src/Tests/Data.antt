-- ===== src/Tests/Data.antt =====
-- The parameters of the model as concrete functions, and the inputs of the tests.
use selfconnect_runtime.Base.{
  ℕ, ◌+◌, String, ◌<>◌, false, none, some, [], ◌∷◌, ltb, eqb, if◌then◌else◌, string_eq, ◌==◌,
}
use selfconnect_runtime.Gateway.{null, ToolCall}
use selfconnect_runtime.Capability.{Os, CapabilityManifest}
use selfconnect_runtime.Policy.{Policy}
use selfconnect_runtime.State.{empty_store}
use selfconnect_runtime.Ledger.{Codec, genesis}
use selfconnect_runtime.Kernel.{Python, Kernel, ToolSpec, returned, World}

-- A system whose paths are the whole text as one component, save "/data/a" which lies in "/data".
abbrev pub posix : Os
posix = record {
  is_nt = false;
  realpath = λ path. record {
    drive = "";
    parts = if path == "/data/a" then "data" ∷ "a" ∷ [] else "data" ∷ [];
  };
  fullmatch = λ pattern text. pattern == text;
  search_in = λ pattern text. pattern == text;
}

-- Ledgers of texts, where a digest has 64 characters.
abbrev pub texts : Codec String
texts = record {
  canonical = λ e. e;
  loads = λ s. some s;
  sha256 = λ s. genesis;
  hmac_sha256 = λ key s. key;
  decimal = λ n. "";
}

abbrev pub python : Python
python = record {
  codec = record {
    canonical = λ e. "event";
    loads = λ s. none;
    sha256 = λ s. s;
    hmac_sha256 = λ key s. key <> s;
    decimal = λ n. "";
  };
  os = posix;
  dumps_compact = λ j. "{}";
  dumps_sorted = λ j. "{}";
  dumps_plain = λ j. "{}";
  str = λ j. "";
  repr = λ s. s;
  repr_codes = λ s. "";
  is_space = λ c. eqb c 32;
}

abbrev pub parent_manifest : CapabilityManifest
parent_manifest = record {
  tools = "bump" ∷ "read" ∷ [];
  fs_read_roots = "/data" ∷ [];
  fs_write_roots = "/data" ∷ [];
  net_hosts = "localhost" ∷ [];
  exec_rules = [];
  max_budget_usd = 10;
  classification_ceiling = "internal";
}

abbrev pub child_manifest : CapabilityManifest
child_manifest = record parent_manifest {
  tools = "bump" ∷ "delete" ∷ [];
  max_budget_usd = 20;
  classification_ceiling = "secret";
}

abbrev pub bump : ToolSpec ℕ
bump = record {
  name = "bump";
  fn = λ args n. (returned "bumped", n + 1);
  idempotent = false;
  description = "";
  parameters = null;
  parallel_safe = false;
  classification = "public";
}

abbrev pub bump_call : ToolCall
bump_call = record { id = "1"; name = "bump"; arguments = [] }

-- A model that asks for `bump` while the world is less than 2, and then answers.
abbrev pub kernel : Kernel ℕ
kernel = record {
  py = python;
  complete = λ messages defs n. (
    returned (record {
      text = "ok";
      tool_calls = if ltb n 2 then bump_call ∷ [] else [];
      input_tokens = 1;
      output_tokens = 1;
    }),
    n,
  );
  monotonic = λ n. (0, n);
  sleep = λ seconds n. n;
  tools = ("bump", bump) ∷ [];
  manifest = parent_manifest;
  guards = record {
    max_iterations = 4;
    max_token_estimate = 1000;
    max_wall_seconds = 10;
    cycle_repeat_threshold = 3;
    max_total_tokens = 1000;
    summarize_at_tokens = 1000;
    summarize_keep_recent = 4;
  };
  system_prompt = "";
  policy = none;
  cancel_check = none;
  finalize_guard = none;
  model_retries = 2;
  model_retry_backoff = 1;
}

abbrev pub cautious : Policy
cautious = record {
  approval_rules = record { tool = "*"; arg_match = [] } ∷ [];
  tighten_tools = some ("bump" ∷ []);
  tighten_net_hosts = none;
}

-- The kernel with a policy that wants an approval for every call.
abbrev pub guarded : Kernel ℕ
guarded = record kernel { policy = some cautious }

abbrev pub fresh : World ℕ
fresh = record { store = empty_store; world = 0 }
