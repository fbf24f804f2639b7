-- ===== src/Patch/Written.antt =====
-- What a write does to the tree.
use wam_coin.Common.{
  ℕ, ◌≡◌, refl, ap, ◌∙◌, List, length, length-append, Option, none, some, false, Bool-cases, inl,
  inr, arith,
}
use wam_coin.Common.Bytes.{codes, bytes_eq, bytes_eq_self, eq_of_bytes_eq}
use wam_coin.Patch.{Tree, put_file, backup_path, with_backup, write}

-- The backup stands beside the file.
backup_apart : (path : List ℕ) → bytes_eq (backup_path path) path ≡ false
backup_apart path = elim (Bool-cases (bytes_eq (backup_path path) path)) [
  | inr apart ↦ apart
  | inl same ↦
      let sizes : length (backup_path path) ≡ length path =
        ap (length {A = ℕ}) (eq_of_bytes_eq (backup_path path) path same) in
      absurd (omega (arith, sizes, length-append path (codes ".wam-orig")))
]

put_file_self : (path text : List ℕ) (tree : Tree) → put_file path text tree path ≡ some text
put_file_self path text tree = rw (bytes_eq_self path)

put_file_other :
    (path text p : List ℕ) (tree : Tree)
    → bytes_eq p path ≡ false
    → put_file path text tree p ≡ tree p
put_file_other path text p tree h = rw h

with_backup_other :
    (path src p : List ℕ) (old : Option (List ℕ)) (tree : Tree)
    → bytes_eq p (backup_path path) ≡ false
    → with_backup path src old tree p ≡ tree p
with_backup_other path src p none tree h = put_file_other (backup_path path) src p tree h
with_backup_other path src p (some b) tree h = refl

pub write_other :
    (path src out p : List ℕ) (tree : Tree)
    → bytes_eq p path ≡ false
    → bytes_eq p (backup_path path) ≡ false
    → write false path src out tree p ≡ tree p
unfolding write
write_other path src out p tree h k =
    put_file_other path out p (with_backup path src (tree (backup_path path)) tree) h
    ∙ with_backup_other path src p (tree (backup_path path)) tree k

pub write_backup :
    (path src out : List ℕ) (tree : Tree)
    → tree (backup_path path) ≡ none
    → write false path src out tree (backup_path path) ≡ some src
unfolding write
write_backup path src out tree e =
    put_file_other path out (backup_path path) (with_backup path src (tree (backup_path path)) tree)
      (backup_apart path)
    ∙ ap (λ o. with_backup path src o tree (backup_path path)) e
    ∙ put_file_self (backup_path path) src tree

pub write_backup_kept :
    (path src out old : List ℕ) (tree : Tree)
    → tree (backup_path path) ≡ some old
    → write false path src out tree (backup_path path) ≡ some old
unfolding write
write_backup_kept path src out old tree e =
    put_file_other path out (backup_path path) (with_backup path src (tree (backup_path path)) tree)
      (backup_apart path)
    ∙ ap (λ o. with_backup path src o tree (backup_path path)) e
    ∙ e

pub write_file :
    (path src out : List ℕ) (tree : Tree) → write false path src out tree path ≡ some out
unfolding write
write_file path src out tree =
    put_file_self path out (with_backup path src (tree (backup_path path)) tree)
