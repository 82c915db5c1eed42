-- ===== src/Capability/Path.antt =====
-- scr/capability.py: `_reject_ads` and `resolve_within`.
use Prim.Native.Char.{code}
use selfconnect_runtime.Base.{
  ℕ, String, Bool, true, false, not, ◌&&◌, ◌||◌, Option, none, some, List, [], ◌∷◌, map, any, eqb,
  leb, ◌==◌, string_eq, if◌then◌else◌, Result, ok, err, ◌>>◌, require_else,
}

-- `CapabilityDenied`, by the place that raises it.
pub data Denied : Type 0 where
  unknown_level : String → Denied
  alternate_stream : List ℕ → Denied
  outside_roots : String → Denied
  tool_not_permitted : String → Denied
  no_read_capability : Denied
  no_write_capability : Denied
  host_not_permitted : String → Denied
  exec_not_permitted : String → List String → Denied
  exceeds_ceiling : String → String → Denied
  unknown_tool : String → Denied

-- An absolute path with its symbolic links followed: the drive (empty on POSIX) and the components.
pub record FilePath : Type 0 where
  pub drive : String
  pub parts : List String

-- `os.name == "nt"`, `os.path.realpath(os.path.abspath(path))`, and `re.fullmatch`, `re.search`.
pub record Os : Type 0 where
  pub is_nt : Bool
  pub realpath : String → FilePath
  pub fullmatch : String → String → Bool
  pub search_in : String → String → Bool

-- The characters of a text.
unfoldable pub codes : String → List ℕ
codes String.[] = []
codes (String.◌∷◌ c s) = code c ∷ codes s

-- `path.replace("/", "\\")`, a character at a time.
unfoldable pub backslashed : ℕ → ℕ
backslashed c = if eqb c b'/' then 92 else c

-- `norm.split("\\")`: the part before the first separator, and the parts after it.
unfoldable pub split_parts : List ℕ → List ℕ × List (List ℕ)
split_parts [] = ([], [])
split_parts (c ∷ s) =
    let (part, parts) = split_parts s in if eqb c 92 then ([], part ∷ parts) else (c ∷ part, parts)

abbrev pub has_colon : List ℕ → Bool
has_colon = any (λ c. eqb c b':')

unfoldable pub is_letter : ℕ → Bool
is_letter c = (leb b'A' c && leb c b'Z') || (leb b'a' c && leb c b'z')

-- `re.fullmatch(r"[A-Za-z]:", part)`
unfoldable pub is_drive : List ℕ → Bool
is_drive (c ∷ d ∷ []) = is_letter c && eqb d b':'
is_drive _ = false

-- The loop of `_reject_ads` from the second part on.
unfoldable pub reject_later : List (List ℕ) → Result Denied (Unit {0})
reject_later [] = ok tt
reject_later (part ∷ parts) =
    if any (λ c. eqb c b':') part then err (alternate_stream part) else reject_later parts

unfoldable pub reject_ads : String → Bool → Result Denied (Unit {0})
unfolding reject_later split_parts codes is_drive is_letter backslashed
reject_ads path windows =
    if not windows
    then ok tt
    else let (part, parts) = split_parts (map backslashed (codes path)) in
      if has_colon part && not (is_drive part)
      then err (alternate_stream part)
      else reject_later parts

-- The components that two paths share from the start.
unfoldable pub common : List String → List String → List String
common (x ∷ xs) (y ∷ ys) = let rest = common xs ys in if x == y then x ∷ rest else []
common _ _ = []

-- `os.path.commonpath([a, b])`; `none` is the `ValueError` for different drives.
unfoldable pub commonpath : FilePath → FilePath → Option FilePath
unfolding common
commonpath a b =
    if a.drive == b.drive
    then some (record { drive = a.drive; parts = common a.parts b.parts })
    else none

unfoldable pub same_parts : List String → List String → Bool
same_parts [] [] = true
same_parts (x ∷ xs) (y ∷ ys) = x == y && same_parts xs ys
same_parts _ _ = false

-- `os.path.commonpath([path, root]) == root`, with the `ValueError` caught.
unfoldable pub is_under : FilePath → FilePath → Bool
unfolding commonpath same_parts
is_under path root = elim (commonpath path root) [
  | none ↦ false
  | some c ↦ c.drive == root.drive && same_parts c.parts root.parts
]

module _ (os : Os) where
  unfoldable pub resolve_within : String → List String → Option Bool → Result Denied FilePath
  resolve_within path roots windows = do
    reject_ads path (elim windows [ none ↦ os.is_nt | some w ↦ w ])
    let resolved = os.realpath path
    require_else (any (λ root. is_under resolved (os.realpath root)) roots) (outside_roots path)
    ok resolved
