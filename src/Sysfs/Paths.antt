-- ===== src/Sysfs/Paths.antt =====
-- The standard library's equality of paths: that of their components, not of their bytes.
use pcilibs_rs.Prelude.{Bool, true, false, ◌&&◌, List, [], ◌∷◌, ◌≡◌, ◌↔◌, arith}
use pcilibs_rs.Text.{equal}
use pcilibs_rs.Text.Equality.{equal_iff}
use pcilibs_rs.Sysfs.{FilePath, Component, root_dir, cur_dir, parent_dir, normal, components}

abbrev same_component : Component → Component → Bool
same_component root_dir root_dir = true
same_component cur_dir cur_dir = true
same_component parent_dir parent_dir = true
same_component (normal a) (normal b) = equal a b
same_component _ _ = false

unfoldable pub same_components : List Component → List Component → Bool
same_components [] [] = true
same_components (c ∷ cs) (d ∷ ds) = same_component c d && same_components cs ds
same_components _ _ = false

-- `==` on `PathBuf`
unfoldable pub same_path : FilePath → FilePath → Bool
unfolding same_components components
same_path p q = same_components (components p) (components q)

same_component_iff : (c d : Component) → (same_component c d ≡ true) ↔ (c ≡ d)
same_component_iff (normal a) (normal b) = ground (arith, equal_iff a b)
same_component_iff _ _ = ground arith

same_components_iff : (cs ds : List Component) → (same_components cs ds ≡ true) ↔ (cs ≡ ds)
unfolding same_components
same_components_iff (c ∷ cs) (d ∷ ds) =
    ground (arith, same_component_iff c d, same_components_iff cs ds)
same_components_iff _ _ = ground arith

pub same_path_iff : (p q : FilePath) → (same_path p q ≡ true) ↔ (components p ≡ components q)
unfolding same_path
same_path_iff p q = same_components_iff (components p) (components q)
