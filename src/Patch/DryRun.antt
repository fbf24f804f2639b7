-- ===== src/Patch/DryRun.antt =====
-- `--check` writes nothing.
use wam_coin.Common.{
  ℕ, ◌≡◌, ◌⊎◌, refl, ◌∙◌, List, [], ◌∷◌, true, Bool-cases, Option-cases, inl, inr,
}
use wam_coin.Common.Bytes.{bytes_eq}
use wam_coin.Patch.{
  ChangeSet, apply_edits, copy_files, apply_change, patch, Tree, Edit, edited, already_applied,
  absent, failed, Outcome, Failure, anchor_of, is_malformed, is_marked, require_unique, write,
  finish, edit_source, apply_edit,
}

finish_dry : (e : Edit) (src out : List ℕ) (tree : Tree) → (finish true e src out tree).tree ≡ tree
unfolding finish write
finish_dry e src out tree = elim (Bool-cases (bytes_eq out src)) [
  | inl same ↦ rw (same, finish)
  | inr new ↦ rw (new, finish)
]

edit_source_dry :
    (e : Edit) (src : List ℕ) (tree : Tree) → (edit_source true e src tree).tree ≡ tree
unfolding edit_source
edit_source_dry e src tree = elim (Bool-cases (is_marked e.marker src)) [
  | inl old ↦ rw (old, edit_source)
  | inr fresh ↦ elim (Bool-cases (is_malformed e.action)) [
    | inl bad ↦ rw (fresh, edit_source) (rw bad)
    | inr fine ↦ elim (Option-cases (require_unique src (anchor_of e.action))) [
      | inr (why, bad) ↦ rw (fresh, edit_source) (rw fine (rw bad))
      | inl once ↦ rw (fresh, edit_source) (rw fine (rw once (finish_dry e src _ tree)))
    ]
  ]
]

apply_edit_dry : (e : Edit) (tree : Tree) → (apply_edit true e tree).tree ≡ tree
unfolding apply_edit
apply_edit_dry e tree = elim (Option-cases (tree e.file)) [
  | inl gone ↦ rw (gone, apply_edit)
  | inr (src, there) ↦ rw (there, apply_edit) (edit_source_dry e src tree)
]

Outcome-cases :
    (o : Outcome)
    → ((why : Failure) × (o ≡ failed why)) ⊎ ((o ≡ edited) ⊎ ((o ≡ already_applied) ⊎ (o ≡ absent)))
Outcome-cases (failed why) = inl (why, refl)
Outcome-cases edited = inr (inl refl)
Outcome-cases already_applied = inr (inr (inl refl))
Outcome-cases absent = inr (inr (inr refl))

apply_edits_dry : (es : List Edit) (tree : Tree) → (apply_edits true es tree).tree ≡ tree
unfolding apply_edits
apply_edits_dry [] tree = refl
apply_edits_dry (e ∷ es) tree =
    let next : Tree = (apply_edit true e tree).tree in
    let same : next ≡ tree = apply_edit_dry e tree in
    let rest : (apply_edits true es next).tree ≡ tree = apply_edits_dry es next ∙ same in
    elim (Outcome-cases (apply_edit true e tree).outcome) [
      | inl (why, bad) ↦ rw (bad, apply_edits) same
      | inr (inl done) ↦ rw (done, apply_edits) rest
      | inr (inr (inl old)) ↦ rw (old, apply_edits) rest
      | inr (inr (inr missing)) ↦ rw (missing, apply_edits) rest
    ]

copy_files_dry :
    (repo : Tree) (copies : List (List ℕ × List ℕ)) (tree : Tree)
    → (copy_files true repo copies tree).tree ≡ tree
unfolding copy_files
copy_files_dry repo [] tree = refl
copy_files_dry repo ((src, dst) ∷ more) tree = elim (Option-cases (repo src)) [
  | inl gone ↦ rw (gone, copy_files)
  | inr (text, there) ↦ rw (there, copy_files) (copy_files_dry repo more tree)
]

apply_change_dry :
    (repo : Tree) (c : ChangeSet) (tree : Tree) → (apply_change true repo c tree).tree ≡ tree
unfolding apply_change
apply_change_dry repo c tree =
    let same = copy_files_dry repo c.copies tree in
    elim (Option-cases (copy_files true repo c.copies tree).failure) [
      | inr (why, bad) ↦ rw (bad, apply_change) same
      | inl fine ↦
          rw (fine, apply_change)
            (apply_edits_dry c.edits (copy_files true repo c.copies tree).tree ∙ same)
    ]

-- A dry run leaves the tree as it is, whatever the changes are and wherever it stops.
pub patch_dry :
    (repo : Tree) (changes : List ChangeSet) (tree : Tree)
    → (patch true repo changes tree).tree ≡ tree
unfolding patch
patch_dry repo [] tree = refl
patch_dry repo (c ∷ cs) tree =
    let same = apply_change_dry repo c tree in
    elim (Option-cases (apply_change true repo c tree).failure) [
      | inr (why, bad) ↦ rw (bad, patch) same
      | inl fine ↦ rw (fine, patch) (patch_dry repo cs (apply_change true repo c tree).tree ∙ same)
    ]
