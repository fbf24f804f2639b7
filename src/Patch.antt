-- ===== src/Patch.antt =====
-- scripts/patch_upstream.py: the class `Patcher` and `main`. The tree is a map from paths to texts; what
-- an edit says is a parameter, as `build_changes` only lists them.
pub mod Replaced
pub mod Written
pub mod Applied
pub mod DryRun
use wam_coin.Common.{
  ℕ, zero, suc, ◌+◌, ◌-◌, List, [], ◌∷◌, ◌++◌, length, drop, Option, none, some, Bool, true, false,
  ◌==◌, if◌then◌else◌,
}
use wam_coin.Common.Bytes.{codes, bytes_eq}
use wam_coin.Common.Texts.{starts_with, contains}

abbrev pub Tree : Type 0
Tree = List ℕ → Option (List ℕ)

abbrev pub put_file : List ℕ → List ℕ → Tree → Tree
put_file path text tree p = if bytes_eq p path then some text else tree p

-- `src.count(needle)`; the number counts the characters of an occurrence that are still to pass.
unfoldable pub count_from : ℕ → List ℕ → List ℕ → ℕ
count_from skip needle [] = 0
count_from (suc skip) needle (c ∷ cs) = count_from skip needle cs
count_from zero needle (c ∷ cs) = elim (starts_with needle (c ∷ cs)) [
  | true ↦ suc (count_from (length needle - 1) needle cs)
  | false ↦ count_from zero needle cs
]

-- An empty needle is found in front of each character and at the end.
unfoldable pub count : List ℕ → List ℕ → ℕ
count [] src = length src + 1
count (n ∷ ns) src = count_from 0 (n ∷ ns) src

-- `src.replace(needle, text, 1)`
unfoldable pub replace_first : List ℕ → List ℕ → List ℕ → List ℕ
replace_first needle text [] = if starts_with needle [] then text else []
replace_first needle text (c ∷ cs) = elim (starts_with needle (c ∷ cs)) [
  | true ↦ text ++ drop (length needle) (c ∷ cs)
  | false ↦ c ∷ replace_first needle text cs
]

pub data Action : Type 0 where
  replace insert_after : List ℕ → List ℕ → Action
  malformed : Action

-- An empty marker is none.
pub record Edit : Type 0 where
  pub file : List ℕ
  pub action : Action
  pub marker : List ℕ
  pub required : Bool

-- The `PatchError`s.
pub data Failure : Type 0 where
  no_file no_source not_found ambiguous malformed_edit no_change unverified : Failure

pub data Outcome : Type 0 where
  edited already_applied absent : Outcome
  failed : Failure → Outcome

-- The tree after a step: an exception leaves what was written before it.
pub record Step : Type 0 where
  pub tree : Tree
  pub outcome : Outcome

abbrev pub anchor_of : Action → List ℕ
anchor_of (replace anchor text) = anchor
anchor_of (insert_after anchor text) = anchor
anchor_of malformed = []

abbrev pub text_of_edit : Action → List ℕ
text_of_edit (replace anchor text) = text
text_of_edit (insert_after anchor text) = anchor ++ text
text_of_edit malformed = []

abbrev pub is_malformed : Action → Bool
is_malformed (replace anchor text) = false
is_malformed (insert_after anchor text) = false
is_malformed malformed = true

abbrev pub is_marked : List ℕ → List ℕ → Bool
is_marked [] src = false
is_marked (m ∷ ms) src = contains (m ∷ ms) src

abbrev pub has_marker : List ℕ → Bool
has_marker [] = false
has_marker (m ∷ ms) = true

-- `_require_unique`: `none` where it returns.
unfoldable pub require_unique : List ℕ → List ℕ → Option Failure
require_unique src needle =
    if count needle src == 0
    then some not_found
    else if count needle src == 1
    then none
    else some ambiguous

abbrev pub backup_path : List ℕ → List ℕ
backup_path path = path ++ codes ".wam-orig"

abbrev pub with_backup : List ℕ → List ℕ → Option (List ℕ) → Tree → Tree
with_backup path src none tree = put_file (backup_path path) src tree
with_backup path src (some old) tree = tree

-- `_write`, of a file that holds `src`.
unfoldable pub write : Bool → List ℕ → List ℕ → List ℕ → Tree → Tree
write dry_run path src out tree =
    if dry_run
    then tree
    else put_file path out (with_backup path src (tree (backup_path path)) tree)

unfoldable pub finish : Bool → Edit → List ℕ → List ℕ → Tree → Step
finish dry_run e src out tree =
    let after = write dry_run e.file src out tree in
    if bytes_eq out src
    then record { tree = tree; outcome = failed no_change }
    else if dry_run
    then record { tree = after; outcome = edited }
    else if has_marker e.marker
    then if is_marked e.marker out
      then record { tree = after; outcome = edited }
      else record { tree = after; outcome = failed unverified }
    else record { tree = after; outcome = edited }

unfoldable pub edit_source : Bool → Edit → List ℕ → Tree → Step
edit_source dry_run e src tree =
    if is_marked e.marker src
    then record { tree = tree; outcome = already_applied }
    else if is_malformed e.action
    then record { tree = tree; outcome = failed malformed_edit }
    else elim (require_unique src (anchor_of e.action)) [
      | some why ↦ record { tree = tree; outcome = failed why }
      | none ↦
          finish dry_run e src (replace_first (anchor_of e.action) (text_of_edit e.action) src) tree
    ]

unfoldable pub apply_edit : Bool → Edit → Tree → Step
apply_edit dry_run e tree = elim (tree e.file) [
  | none ↦ record { tree = tree; outcome = if e.required then failed no_file else absent }
  | some src ↦ edit_source dry_run e src tree
]

pub record ChangeSet : Type 0 where
  pub copies : List (List ℕ × List ℕ)
  pub edits : List Edit

-- How a run ends: the tree, and the failure that stopped it.
pub record Patched : Type 0 where
  pub tree : Tree
  pub failure : Option Failure

unfoldable pub apply_edits : Bool → List Edit → Tree → Patched
apply_edits dry_run [] tree = record { tree = tree; failure = none }
apply_edits dry_run (e ∷ es) tree =
    let s = apply_edit dry_run e tree in
    elim s.outcome [
      | failed why ↦ record { tree = s.tree; failure = some why }
      | edited ↦ apply_edits dry_run es s.tree
      | already_applied ↦ apply_edits dry_run es s.tree
      | absent ↦ apply_edits dry_run es s.tree
    ]

unfoldable pub copy_files : Bool → Tree → List (List ℕ × List ℕ) → Tree → Patched
copy_files dry_run repo [] tree = record { tree = tree; failure = none }
copy_files dry_run repo ((src, dst) ∷ more) tree = elim (repo src) [
  | none ↦ record { tree = tree; failure = some no_source }
  | some text ↦ copy_files dry_run repo more (if dry_run then tree else put_file dst text tree)
]

unfoldable pub apply_change : Bool → Tree → ChangeSet → Tree → Patched
apply_change dry_run repo c tree =
    let copied = copy_files dry_run repo c.copies tree in
    elim copied.failure [ some why ↦ copied | none ↦ apply_edits dry_run c.edits copied.tree ]

unfoldable pub patch : Bool → Tree → List ChangeSet → Tree → Patched
patch dry_run repo [] tree = record { tree = tree; failure = none }
patch dry_run repo (c ∷ cs) tree =
    let done = apply_change dry_run repo c tree in
    elim done.failure [ some why ↦ done | none ↦ patch dry_run repo cs done.tree ]
