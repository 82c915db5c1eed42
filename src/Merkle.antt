-- ===== src/Merkle.antt =====
-- scr/merkle.py: the Merkle root of a set of files. `Digests` is what the code takes of `hashlib` and
-- `bytes`: the digest of a sequence of parts, the bytes of a text, those of a hexadecimal text, and the
-- hexadecimal text of bytes. `sorted` on the paths is a parameter as well.
use selfconnect_runtime.Base.{ℕ, zero, suc, String, List, [], ◌∷◌, map, string_eq, length, Dict}

pub record Digests (Bytes : Type 0) : Type 0 where
  pub sha256 : List Bytes → Bytes
  pub utf8 : String → Bytes
  pub fromhex : String → Bytes
  pub hex : Bytes → String
  pub sorted : Dict String String → Dict String String

module _ {Bytes : Type 0} (d : Digests Bytes) where
  -- `_leaf`
  unfoldable pub leaf : String → String → Bytes
  leaf path file_hash =
      d.sha256 (d.utf8 "leaf:" ∷ d.utf8 path ∷ d.utf8 ":" ∷ d.fromhex file_hash ∷ [])

  -- `_node`
  unfoldable pub join_nodes : Bytes → Bytes → Bytes
  join_nodes left right = d.sha256 (d.utf8 "node:" ∷ left ∷ right ∷ [])

  -- One pass of the `for` loop: an odd node is promoted.
  unfoldable pub next_level : List Bytes → List Bytes
  unfolding join_nodes
  next_level [] = []
  next_level (a ∷ []) = a ∷ []
  next_level (a ∷ b ∷ rest) = join_nodes a b ∷ next_level rest

  -- The `while` loop, with one round for each node at most.
  unfoldable pub reduce : ℕ → Bytes → List Bytes → Bytes
  unfolding next_level
  reduce fuel a [] = a
  reduce zero a (b ∷ rest) = a
  reduce (suc fuel) a (b ∷ rest) = reduce fuel (join_nodes a b) (next_level rest)

  abbrev pub leaves : Dict String String → List Bytes
  leaves files = map (λ (e : String × String). leaf e.0 e.1) files

  unfoldable pub merkle_root : Dict String String → String
  unfolding reduce leaf
  merkle_root files = elim (leaves (d.sorted files)) [
    | [] ↦ "0000000000000000000000000000000000000000000000000000000000000000"
    | a ∷ rest ↦ d.hex (reduce (length rest) a rest)
  ]
