-- ===== src/Tests/Patching.antt =====
-- The patcher at a concrete tree.
use wam_coin.Common.{◌≡◌, refl, List, [], ◌∷◌, none, some, true, false, if◌then◌else◌}
use wam_coin.Common.Bytes.{codes, bytes_eq}
use wam_coin.Common.Texts.{starts_with, contains}
use wam_coin.Patch.{
  Tree, count_from, count, replace_first, replace, Edit, edited, already_applied, require_unique,
  write, finish, edit_source, apply_edit, ChangeSet, patch,
}
use wam_coin.Patch.Applied.{IsApplied, apply_edit-IsApplied, apply_edit_twice}
use wam_coin.Patch.DryRun.{patch_dry}

abbrev upstream : Tree
upstream path = if bytes_eq path (codes "init.cpp") then some (codes "a = 0;") else none

abbrev edit : Edit
edit = record {
  file = codes "init.cpp";
  action = replace (codes "0") (codes "7 // WAM");
  marker = codes "WAM";
  required = true;
}

edit_made : (apply_edit false edit upstream).outcome ≡ edited
unfolding apply_edit edit_source require_unique count count_from replace_first finish write
    starts_with contains bytes_eq
edit_made = refl

apply_edit-IsApplied_example : IsApplied edit upstream (apply_edit false edit upstream).tree
apply_edit-IsApplied_example = apply_edit-IsApplied edit upstream edit_made

apply_edit_twice_example :
    apply_edit true edit (apply_edit false edit upstream).tree
    ≡ record { tree = (apply_edit false edit upstream).tree; outcome = already_applied }
apply_edit_twice_example = apply_edit_twice true edit upstream refl edit_made

abbrev changes : List ChangeSet
changes = record { copies = []; edits = edit ∷ [] } ∷ []

patch_dry_example : (patch true upstream changes upstream).tree ≡ upstream
patch_dry_example = patch_dry upstream changes upstream
