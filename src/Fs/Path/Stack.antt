-- ===== src/Fs/Path/Stack.antt =====
-- kernel/fs/path.c: the buffer, against a stack of components.
use makh.Prelude.{
  ℕ, ◌+◌, ◌≡◌, ◌≤◌, ◌||◌, Option, none, some, List, [], ◌∷◌, ◌++◌, ltb, leb, if◌then◌else◌, length,
  get_or, All,
}
use makh.Fs.Path.{Chars, Canon, slash, path_max_comps, is_dot, is_dot_dot}

-- The components of a path, the last one first, as an absolute path.
unfoldable pub text : List Chars → Chars
text [] = slash ∷ []
text (w ∷ []) = slash ∷ w
text (w ∷ (v ∷ ws)) = text (v ∷ ws) ++ (slash ∷ w)

abbrev pub popped : List Chars → List Chars
popped [] = []
popped (w ∷ ws) = ws

-- What a component does to the stack, within the limits: nothing for ".", a pop for "..", otherwise a push.
unfoldable pub apply : ℕ → Chars → List Chars → Option (List Chars)
apply outsz w ws =
    let grown = w ∷ ws in
    if is_dot w
    then some ws
    else if is_dot_dot w
    then some (popped ws)
    else if leb path_max_comps (length ws) || ltb outsz (length (text grown) + 1)
    then none
    else some grown

-- The first chars of the buffer.
pub data Starts : List ℕ → Chars → Type 0 where
  nothing : {out : List ℕ} → Starts out []
  first : {c : ℕ} {out : List ℕ} {t : Chars} → Starts out t → Starts (c ∷ out) (c ∷ t)

-- `end` holds the length of the text behind each component.
abbrev pub Ends : List ℕ → List Chars → Type 0
Ends end [] = Unit
Ends end (w ∷ ws) = (get_or end (length ws) 0 ≡ length (text (w ∷ ws))) × Ends end ws

-- The buffer holds the path of the stack.
pub record Stands (outsz : ℕ) (s : Canon) (ws : List Chars) : Type 0 where
  pub starts : Starts s.out (text ws)
  pub len_text : s.len ≡ length (text ws)
  pub count : s.ncomp ≡ length ws
  pub ends : Ends s.end ws
  pub few : length ws ≤ path_max_comps
  pub fits : length (text ws) + 1 ≤ outsz
  pub room : outsz ≤ length s.out
  pub slots : length s.end ≡ path_max_comps
  pub real : All (λ w. 1 ≤ length w) ws
