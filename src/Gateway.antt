-- ===== src/Gateway.antt =====
-- scr/gateway.py: the internal schema that every adapter speaks, and the values of JSON.
use selfconnect_runtime.Base.{ℕ, String, Bool, List, Dict}

mutual
  -- A number is kept as the text that `json` would print.
  pub data Json : Type 0 where
    null : Json
    boolean : Bool → Json
    number : String → Json
    text : String → Json
    array : Items → Json
    object : Fields → Json

  pub data Items : Type 0 where
    nil : Items
    item : Json → Items → Items

  pub data Fields : Type 0 where
    end : Fields
    field : String → Json → Fields → Fields

-- The `arguments` of a call, a dict with text keys.
abbrev pub Arguments : Type 0
Arguments = Dict String Json

pub record ToolDef : Type 0 where
  pub name : String
  pub description : String
  pub parameters : Json

pub record ToolCall : Type 0 where
  pub id : String
  pub name : String
  pub arguments : Arguments

pub record ModelResponse : Type 0 where
  pub text : String
  pub tool_calls : List ToolCall
  pub input_tokens : ℕ
  pub output_tokens : ℕ
