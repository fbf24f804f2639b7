-- ===== src/Patch/Applied.antt =====
-- What an edit does to the tree.
use wam_coin.Common.{
  ℕ, ◌≡◌, ◌≢◌, ◌⊎◌, refl, sym, ap, ◌∙◌, List, none, some, Bool, true, false, Bool-cases,
  Option-cases, inl, inr, false-ne-true,
}
use wam_coin.Common.Bytes.{bytes_eq, bytes_eq_self}
use wam_coin.Patch.{
  Tree, count, replace_first, Edit, edited, already_applied, absent, failed, Failure, anchor_of,
  text_of_edit, is_malformed, is_marked, has_marker, require_unique, backup_path, write, finish,
  edit_source, apply_edit,
}
use wam_coin.Patch.Replaced.{IsReplaced, IsReplaced-once, require_unique-none}
use wam_coin.Patch.Written.{write_other, write_backup, write_backup_kept, write_file}

failed-ne-edited : {why : Failure} → failed why ≢ edited
failed-ne-edited h = cc

applied-ne-edited : already_applied ≢ edited
applied-ne-edited h = cc

absent-ne-edited : absent ≢ edited
absent-ne-edited h = cc

-- An edit that was made.
pub record IsApplied (e : Edit) (tree after : Tree) : Type 0 where
  pub src : List ℕ
  pub out : List ℕ
  pub there : tree e.file ≡ some src
  pub anchored_once : count (anchor_of e.action) src ≡ 1
  pub replaced : IsReplaced (anchor_of e.action) (text_of_edit e.action) src out
  pub written : after e.file ≡ some out
  pub marked : (has_marker e.marker ≡ false) ⊎ (is_marked e.marker out ≡ true)
  pub changed : out ≢ src
  pub first_backup : tree (backup_path e.file) ≡ none → after (backup_path e.file) ≡ some src
  pub later_backup :
      (old : List ℕ) → tree (backup_path e.file) ≡ some old → after (backup_path e.file) ≡ some old
  pub others :
      (p : List ℕ)
      → bytes_eq p e.file ≡ false
      → bytes_eq p (backup_path e.file) ≡ false
      → after p ≡ tree p

bytes_eq-false : (a b : List ℕ) → bytes_eq a b ≡ false → a ≢ b
bytes_eq-false a b h e = false-ne-true (sym h ∙ sym (ap (bytes_eq a) e) ∙ bytes_eq_self a)

finish_edited :
    (e : Edit) (src out : List ℕ) (tree : Tree)
    → (finish false e src out tree).outcome ≡ edited
    → ((finish false e src out tree).tree ≡ write false e.file src out tree)
      × ((has_marker e.marker ≡ false) ⊎ (is_marked e.marker out ≡ true))
      × (out ≢ src)
unfolding finish
finish_edited e src out tree h = elim (Bool-cases (bytes_eq out src)) [
  | inl same ↦ absurd (failed-ne-edited (rw (same, finish) at h))
  | inr new ↦ elim (Bool-cases (has_marker e.marker)) [
    | inr unmarked ↦ rw (new, finish) (rw unmarked (refl, inl refl, bytes_eq-false out src new))
    | inl marker ↦ elim (Bool-cases (is_marked e.marker out)) [
      | inr lost ↦ absurd (failed-ne-edited (rw lost at (rw marker at (rw (new, finish) at h))))
      | inl kept ↦
          rw (new, finish) (rw marker (rw kept (refl, inr refl, bytes_eq-false out src new)))
    ]
  ]
]

edit_source-IsApplied :
    (e : Edit) (src : List ℕ) (tree : Tree)
    → tree e.file ≡ some src
    → (edit_source false e src tree).outcome ≡ edited
    → IsApplied e tree (edit_source false e src tree).tree
unfolding edit_source
edit_source-IsApplied e src tree there h = elim (Bool-cases (is_marked e.marker src)) [
  | inl old ↦ absurd (applied-ne-edited (rw (old, edit_source) at h))
  | inr fresh ↦ elim (Bool-cases (is_malformed e.action)) [
    | inl bad ↦ absurd (failed-ne-edited (rw bad at (rw (fresh, edit_source) at h)))
    | inr fine ↦ elim (Option-cases (require_unique src (anchor_of e.action))) [
      | inr (why, bad) ↦
          absurd (failed-ne-edited (rw bad at (rw fine at (rw (fresh, edit_source) at h))))
      | inl once ↦
          let out = replace_first (anchor_of e.action) (text_of_edit e.action) src in
          let (same, marked, changed) =
            finish_edited e src out tree (rw once at (rw fine at (rw (fresh, edit_source) at h))) in
          let one = require_unique-none src (anchor_of e.action) once in
          rw (fresh, edit_source)
            (rw fine (
              rw once (
                rw same (record {
                  src = src;
                  out = out;
                  there = there;
                  anchored_once = one;
                  replaced = IsReplaced-once (anchor_of e.action) (text_of_edit e.action) src one;
                  written = write_file e.file src out tree;
                  marked = marked;
                  changed = changed;
                  first_backup = write_backup e.file src out tree;
                  later_backup = λ old. write_backup_kept e.file src out old tree;
                  others = λ p. write_other e.file src out p tree;
                }))))
    ]
  ]
]

-- An edit that reports an edit has found its anchor once in the file, has put its text in that place and changed
-- nothing in front of and behind it, left the file other than it was, and left the marker in it if it has
-- one. A backup that was there is there unchanged, and where there was none it holds the file as it was. No
-- other file has changed.
pub apply_edit-IsApplied :
    (e : Edit) (tree : Tree)
    → (apply_edit false e tree).outcome ≡ edited
    → IsApplied e tree (apply_edit false e tree).tree
unfolding apply_edit
apply_edit-IsApplied e tree h = elim (Option-cases (tree e.file)) [
  | inr (src, there) ↦
      rw (there, apply_edit) (edit_source-IsApplied e src tree there (rw (there, apply_edit) at h))
  | inl gone ↦ elim (Bool-cases e.required) [
    | inl needed ↦ absurd (failed-ne-edited (rw needed at (rw (gone, apply_edit) at h)))
    | inr optional ↦ absurd (absent-ne-edited (rw optional at (rw (gone, apply_edit) at h)))
  ]
]

marker_left :
    (marker out : List ℕ)
    → (has_marker marker ≡ false) ⊎ (is_marked marker out ≡ true)
    → has_marker marker ≡ true
    → is_marked marker out ≡ true
marker_left marker out (inl without) h = absurd (false-ne-true (sym without ∙ h))
marker_left marker out (inr kept) h = kept

marked_skip :
    (dry_run : Bool) (e : Edit) (tree : Tree) (out : List ℕ)
    → tree e.file ≡ some out
    → is_marked e.marker out ≡ true
    → apply_edit dry_run e tree ≡ record { tree = tree; outcome = already_applied }
unfolding apply_edit edit_source
marked_skip dry_run e tree out there marked = rw (there, apply_edit) (rw (marked, edit_source) refl)

-- Where an edit with a marker was made, a second run of it, dry or not, finds that it was already applied and leaves
-- the tree as it is.
pub apply_edit_twice :
    (dry_run : Bool) (e : Edit) (tree : Tree)
    → has_marker e.marker ≡ true
    → (apply_edit false e tree).outcome ≡ edited
    → let after = (apply_edit false e tree).tree in
      apply_edit dry_run e after ≡ record { tree = after; outcome = already_applied }
apply_edit_twice dry_run e tree m h =
    let a = apply_edit-IsApplied e tree h in
    marked_skip dry_run e (apply_edit false e tree).tree a.out a.written
      (marker_left e.marker a.out a.marked m)
