-- ===== src/Sync/Paths.antt =====
-- The paths of internal/sync/node.go: ResolveInside, ListSubdirs and the path of SimpleStorage, over
-- what path/filepath does on Unix. A path is given by its elements between slashes and by whether a
-- slash begins it; the empty path has no elements.
pub mod Shape
pub mod Inside
pub mod Spellings
use mathlib.Core.List.{reverse}
use sync_vault.Base.{
  ◌≡◌, String, Bool, true, false, not, ◌&&◌, ◌||◌, List, [], ◌∷◌, ◌++◌, Result, ok, err, string_eq,
  ◌==◌, if◌then◌else◌, contains,
}

pub record FilePath : Type 0 where
  pub rooted : Bool
  pub elements : List String

abbrev pub empty_path : FilePath
empty_path = record { rooted = false; elements = [] }

abbrev pub current_dir : FilePath
current_dir = record { rooted = false; elements = "." ∷ [] }

abbrev pub same_elements : List String → List String → Bool
same_elements [] [] = true
same_elements [] (y ∷ ys) = false
same_elements (x ∷ xs) [] = false
same_elements (x ∷ xs) (y ∷ ys) = x == y && same_elements xs ys

abbrev pub same_flag : Bool → Bool → Bool
same_flag true b = b
same_flag false b = not b

abbrev pub same_path : FilePath → FilePath → Bool
same_path p q = same_flag p.rooted q.rooted && same_elements p.elements q.elements

-- What `..` does to the elements before it, the last one first.
abbrev pub back : Bool → List String → List String
back rooted [] = if rooted then [] else ".." ∷ []
back rooted (top ∷ rest) = if top == ".." then ".." ∷ top ∷ rest else rest

abbrev pub enter : Bool → List String → String → List String
enter rooted stack e =
    if e == "" || e == "." then stack else if e == ".." then back rooted stack else e ∷ stack

abbrev pub enter_all : Bool → List String → List String → List String
enter_all rooted stack [] = stack
enter_all rooted stack (e ∷ es) = enter_all rooted (enter rooted stack e) es

-- `.` where nothing is left of a path that is not rooted.
abbrev pub spelled : Bool → List String → FilePath
spelled true es = record { rooted = true; elements = es }
spelled false [] = current_dir
spelled false (e ∷ es) = record { rooted = false; elements = e ∷ es }

unfoldable pub clean : FilePath → FilePath
clean p = spelled p.rooted (reverse (enter_all p.rooted [] p.elements))

-- Whether the path begins with `..`.
abbrev pub leads_up : List String → Bool
leads_up [] = false
leads_up (e ∷ es) = e == ".."

unfoldable pub is_local : FilePath → Bool
unfolding clean
is_local p =
    if p.rooted || same_path p empty_path
    then false
    else if contains "." p.elements || contains ".." p.elements
    then not (leads_up (clean p).elements)
    else not (leads_up p.elements)

abbrev pub strip : List String → List String → List String × List String
strip [] ts = ([], ts)
strip (b ∷ bs) [] = (b ∷ bs, [])
strip (b ∷ bs) (t ∷ ts) = if b == t then strip bs ts else (b ∷ bs, t ∷ ts)

abbrev pub ups : List String → List String
ups [] = []
ups (b ∷ bs) = ".." ∷ ups bs

-- The elements of a clean path, of which `.` has none.
abbrev pub below_dot : FilePath → List String
below_dot p = if same_path p current_dir then [] else p.elements

abbrev pub rel_elements : List String × List String → Result FilePath
rel_elements (bs, ts) =
    if leads_up bs
    then err "Rel: can't make relative"
    else ok (record { rooted = false; elements = ups bs ++ ts })

unfoldable pub rel : FilePath → FilePath → Result FilePath
unfolding clean
rel base target =
    let b = clean base in
    let t = clean target in
    if same_path b t
    then ok current_dir
    else if same_flag b.rooted t.rooted
    then rel_elements (strip (below_dot b) t.elements)
    else err "Rel: can't make relative"

-- An empty part of a join is left out.
unfoldable pub join : FilePath → FilePath → FilePath
unfolding clean
join base p =
    if same_path base empty_path
    then if same_path p empty_path then empty_path else clean p
    else clean (record { rooted = base.rooted; elements = base.elements ++ p.elements })

-- The error, without the paths that its text names.
abbrev pub outside : String
outside = "path is outside"

abbrev pub resolve_local : FilePath → FilePath → Result FilePath
resolve_local base p =
    if same_path p current_dir
    then ok base
    else if not (is_local p)
    then err outside
    else ok (join base p)

abbrev pub resolve_relative : FilePath → Result FilePath → Result FilePath
resolve_relative base (err e) = err outside
resolve_relative base (ok p) = resolve_local base (clean p)

unfoldable pub resolve_inside : FilePath → FilePath → Result FilePath
unfolding clean is_local join rel
resolve_inside base p =
    if same_path p empty_path
    then ok base
    else resolve_relative base (if p.rooted then rel base p else ok p)

-- `resolve` of SimpleStorage.
unfoldable pub simple_resolve : FilePath → FilePath → Result FilePath
unfolding is_local join
simple_resolve root p = if not (is_local p) then err outside else ok (join root p)
