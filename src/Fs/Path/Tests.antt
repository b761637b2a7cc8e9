-- ===== src/Fs/Path/Tests.antt =====
-- Some paths.
use makh.Prelude.{ℕ, ◌≡◌, refl, some, List, [], ◌∷◌, replicate, arith}
use makh.Fs.Path.{
  Chars, skip_separators, component, is_dot, is_dot_dot, put, put_all, write_piece, go_up, append,
  visit, walk, walk_string, start, is_relative, base_of, finish, path_canonicalize,
}
use makh.Fs.Path.Stack.{text}
use makh.Fs.Path.Canonical.{Canonical, stack_of, IsString, path_canonicalize-Canonical}
use makh.Fs.Path.Clean.{IsClean, path_canonicalize-IsClean}

-- "/a", "b/.././c" and a buffer
abbrev home : Chars
home = 47 ∷ 97 ∷ []

abbrev relative : Chars
relative = 98 ∷ 47 ∷ 46 ∷ 46 ∷ 47 ∷ 46 ∷ 47 ∷ 99 ∷ []

abbrev buffer : List ℕ
buffer = replicate {A = ℕ} 8 7

canonical :
    path_canonicalize (some home) (some relative) (some buffer) 8
    ≡ some (0, 47 ∷ 97 ∷ 47 ∷ 99 ∷ 0 ∷ 7 ∷ 7 ∷ 7 ∷ [])
unfolding path_canonicalize start walk_string walk skip_separators component visit is_dot is_dot_dot
    append write_piece put put_all go_up is_relative base_of finish
canonical = refl

too_long : path_canonicalize (some home) (some relative) (some buffer) 4 ≡ some (34, [])
unfolding path_canonicalize start walk_string walk skip_separators component visit is_dot is_dot_dot
    append write_piece put put_all go_up is_relative base_of finish
too_long = refl

path_canonicalize-Canonical_example :
    Canonical
      (stack_of 8 (some home) relative)
      (path_canonicalize (some home) (some relative) (some buffer) 8)
path_canonicalize-Canonical_example =
    path_canonicalize-Canonical (some home) relative buffer 8 (omega arith) (omega arith)

path_canonicalize-IsClean_example :
    (ws : List Chars) × IsString (47 ∷ 97 ∷ 47 ∷ 99 ∷ 0 ∷ 7 ∷ 7 ∷ 7 ∷ []) (text ws) × IsClean 8 ws
path_canonicalize-IsClean_example =
    path_canonicalize-IsClean (some home) relative buffer 8 (47 ∷ 97 ∷ 47 ∷ 99 ∷ 0 ∷ 7 ∷ 7 ∷ 7 ∷ [])
      (omega arith) (omega arith) canonical
