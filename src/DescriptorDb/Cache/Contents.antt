-- ===== src/DescriptorDb/Cache/Contents.antt =====
-- Which files a descriptor set is made of.
use postgres_protobuf.Common.{
  ℕ, ◌≡◌, refl, sym, ap, ◌∙◌, inl, inr, true, Option, none, some, List, [], ◌∷◌, ◌++◌, arith,
  if◌then◌else◌, Bool-cases, Option-cases, Bytes, bytes_eq, bytes_eq_refl, bytes_eq→eq,
}
use mathlib.Core.Option
use mathlib.Core.List.{reverse, reverse-cons}
use postgres_protobuf.Result.{ok, ok_injective}
use postgres_protobuf.DescriptorDb.{find_desc_set}
use postgres_protobuf.DescriptorDb.Cache.{
  Descriptors, Sets, add_files, release_all, build_sets, desc_sets_of, desc_set_of,
}

-- The files under a name, if there is such a set.
unfoldable pub files_of : Bytes → Sets → Option (List ℕ)
unfolding bytes_eq
files_of name [] = none
files_of name ((n, fs) ∷ sets) = if bytes_eq n name then some fs else files_of name sets

-- The files that a row adds to what was there.
abbrev pub extended : Option (List ℕ) → List ℕ → List ℕ
extended none files = files
extended (some fs) files = fs ++ files

same_name :
    (m n name : Bytes) → bytes_eq m name ≡ true → bytes_eq n name ≡ true → bytes_eq m n ≡ true
same_name m n name h k = rw (bytes_eq→eq m name h, bytes_eq→eq n name k) (bytes_eq_refl name)

add_files-files_of :
    (name n : Bytes) (files : List ℕ) (sets : Sets)
    → files_of name (add_files n files sets)
      ≡ (if bytes_eq n name then some (extended (files_of name sets) files) else files_of name sets)
unfolding files_of add_files
add_files-files_of name n files [] = ground arith
add_files-files_of name n files ((m, fs) ∷ sets) = elim (Bool-cases (bytes_eq m n)) [
  | inl t ↦
      let e : bytes_eq m name ≡ bytes_eq n name = ap (λ k. bytes_eq k name) (bytes_eq→eq m n t) in
      rw (t, e) (ground arith)
  | inr f ↦ ground (arith, add_files-files_of name n files sets, same_name m n name)
]

release_all-reverse : (files : List ℕ) → release_all files ≡ reverse files
unfolding release_all
release_all-reverse [] = refl
release_all-reverse (f ∷ fs) =
    ap (λ l. l ++ f ∷ []) (release_all-reverse fs) ∙ sym (reverse-cons f fs)

module _ (d : Descriptors) where
  -- What the rows with a name hold, one after the other: the files of each, from the last to the
  -- first. `none` where no row has the name.
  unfoldable pub gathered : Bytes → List (Bytes × Bytes) → Option (List ℕ) → Option (List ℕ)
  unfolding bytes_eq
  gathered name [] before = before
  gathered name ((n, fds) ∷ rs) before = gathered name rs (
      if bytes_eq n name
      then elim (d.parse_from_array fds) [
        | none ↦ before
        | some files ↦ some (extended before (reverse files))
      ]
      else before)

  build_sets-files_of :
      (name : Bytes) (rs : List (Bytes × Bytes)) (sets built : Sets)
      → build_sets d rs sets ≡ ok built
      → files_of name built ≡ gathered name rs (files_of name sets)
  unfolding build_sets gathered
  build_sets-files_of name [] sets built e = ap (files_of name) (sym (ok_injective e))
  build_sets-files_of name ((n, fds) ∷ rs) sets built e =
      elim (Option-cases (d.parse_from_array fds)) [
        | inl p ↦ ground (arith, p)
        | inr (files, p) ↦
            rw
              (
                p,
                build_sets-files_of name rs (add_files n (release_all files) sets) built
                    (ground (arith, p)),
                add_files-files_of name n (release_all files) sets,
                release_all-reverse files,
              )
              refl
      ]

  find_desc_set-desc_sets_of :
      (name : Bytes) (sets : Sets)
      → find_desc_set name (desc_sets_of d sets) ≡ Option.map (desc_set_of d) (files_of name sets)
  unfolding find_desc_set files_of
  find_desc_set-desc_sets_of name [] = refl
  find_desc_set-desc_sets_of name ((n, fs) ∷ sets) =
      ground (arith, find_desc_set-desc_sets_of name sets)

  -- If the rows of the table all parse, the descriptor set of a name is the one over the files of
  -- all rows with that name, each row's files from the last to the first; there is none if no row
  -- has the name.
  pub build_sets-find_desc_set :
      (name : Bytes) (rs : List (Bytes × Bytes)) (built : Sets)
      → build_sets d rs [] ≡ ok built
      → find_desc_set name (desc_sets_of d built)
        ≡ Option.map (desc_set_of d) (gathered name rs none)
  unfolding files_of
  build_sets-find_desc_set name rs built e =
      rw (find_desc_set-desc_sets_of name built, build_sets-files_of name rs [] built e) refl
