-- ===== src/Capability/Paths.antt =====
-- Containment of resolved paths is the prefix order of their components.
use selfconnect_runtime.Base.{
  String, Bool, true, false, ◌&&◌, List, [], ◌∷◌, ◌≡◌, refl, arith, ◌==◌, string_eq,
}
use selfconnect_runtime.Capability.Path.{FilePath, common, same_parts, is_under}

abbrev pub has_prefix : List String → List String → Bool
has_prefix xs [] = true
has_prefix [] (y ∷ ys) = false
has_prefix (x ∷ xs) (y ∷ ys) = x == y && has_prefix xs ys

same_parts-common : (xs ys : List String) → same_parts (common xs ys) ys ≡ has_prefix xs ys
unfolding same_parts common
same_parts-common [] [] = refl
same_parts-common [] (y ∷ ys) = refl
same_parts-common (x ∷ xs) [] = refl
same_parts-common (x ∷ xs) (y ∷ ys) = ground (arith, same_parts-common xs ys)

-- `commonpath([path, root]) == root` holds exactly when both lie on one drive and the root's
-- components begin the path's.
pub is_under-eq-prefix :
    (path root : FilePath)
    → is_under path root ≡ (path.drive == root.drive && has_prefix path.parts root.parts)
unfolding is_under
is_under-eq-prefix path root = ground (arith, same_parts-common path.parts root.parts)

has_prefix_trans :
    (xs ys zs : List String)
    → has_prefix xs ys ≡ true
    → has_prefix ys zs ≡ true
    → has_prefix xs zs ≡ true
has_prefix_trans xs ys [] h k = ground arith
has_prefix_trans [] [] (z ∷ zs) h k = ground arith
has_prefix_trans [] (y ∷ ys) (z ∷ zs) h k = ground arith
has_prefix_trans (x ∷ xs) [] (z ∷ zs) h k = ground arith
has_prefix_trans (x ∷ xs) (y ∷ ys) (z ∷ zs) h k = ground (arith, has_prefix_trans xs ys zs)

-- A path under a root that lies under a further root lies under the further root.
pub is_under_trans :
    (path root top : FilePath)
    → is_under path root ≡ true
    → is_under root top ≡ true
    → is_under path top ≡ true
is_under_trans path root top h k = ground (
  arith,
  is_under-eq-prefix path root,
  is_under-eq-prefix root top,
  is_under-eq-prefix path top,
  has_prefix_trans path.parts root.parts top.parts,
)
