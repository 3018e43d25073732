-- ===== src/Sync/Pairs.antt =====
-- internal/sync/pairs.go: pairs of folders, each on a device or on Google Drive. The disk of this
-- computer, the agents and Drive are parameters; a path is given by its elements, and compared as a
-- text where the code compares texts.
pub mod Overlap
pub mod Creating
use sync_vault.Base.{
  ℕ, suc, ◌+◌, ◌≡◌, String, Bool, true, false, not, ◌&&◌, ◌||◌, List, [], ◌∷◌, Option, none, some,
  Result, ok, err, length, string_eq, ◌==◌, ◌<>◌, if◌then◌else◌,
}
use Prim.Native.Char.{code}
use sync_vault.Base.Tests.{nat_eqb}
use sync_vault.Sync.Paths.{
  FilePath, empty_path, same_path, same_elements, clean, is_local, rel, resolve_inside,
}
use sync_vault.Sync.Registry.{NodeInfo, NodeRegistry, info_of}
use sync_vault.Sync.State.{StateStore, forget_node}

pub record PairSide : Type 0 where
  pub device : String
  pub path : FilePath
  pub drive : String
  pub folder_id : String
  pub user_id : String

pub record Pair : Type 0 where
  pub id : ℕ
  pub name : String
  pub a : PairSide
  pub b : PairSide
  pub last_status : String
  pub last_error : String

abbrev pub local_device : String
local_device = "local"

-- What an agent answers on the subfolders of a folder.
pub data Dirs : Type 0 where
  dirs : List String → Dirs
  no_folder : Dirs
  unreachable : String → Dirs

-- What the manager asks of its surroundings: the check of a Drive folder, if Drive is configured, the
-- root of this computer's folders, its disk, the registered devices and their agents. `path_of` reads
-- the elements of a path.
pub record Surroundings : Type 1 where
  pub Impl : Type 0
  pub drive : Option (PairSide → Result {0} Unit)
  pub local_root : FilePath
  pub is_dir : FilePath → Bool
  pub devices : NodeRegistry Impl
  pub path_of : String → FilePath
  pub list_dirs : NodeInfo → FilePath → Dirs

abbrev pub is_empty_path : FilePath → Bool
is_empty_path p = same_path p empty_path

abbrev pub set_path : PairSide → FilePath → PairSide
set_path side p = record side { path = p }

module _ (W : Surroundings) where
  unfoldable pub local_dir : FilePath → Result FilePath
  unfolding resolve_inside
  local_dir p =
      if is_empty_path W.local_root
      then err "local device is disabled (sync.localRoot is not set)"
      else resolve_inside W.local_root p

  abbrev pub validate_drive : PairSide → Option (PairSide → Result {0} Unit) → Result PairSide
  validate_drive side none = err "google drive is not configured"
  validate_drive side (some check) =
      if side.user_id == ""
      then err "google drive side requires an authenticated user"
      else elim (check side) [ err e ↦ err e | ok u ↦ ok side ]

  abbrev pub validate_local : PairSide → Result FilePath → Result PairSide
  validate_local side (err e) = err e
  validate_local side (ok dir) =
      if not (W.is_dir dir)
      then err "the folder does not exist on this computer"
      else ok (set_path side dir)

  -- A rooted path is taken from the root of the agent.
  abbrev pub agent_path : NodeInfo → FilePath → Result FilePath
  agent_path info p =
      if not (is_empty_path p) && p.rooted && not (info.root == "")
      then elim (rel (W.path_of info.root) p) [
        | err e ↦ err "the folder is outside of the root of the device"
        | ok r ↦ if is_local r then ok r else err "the folder is outside of the root of the device"
      ]
      else ok p

  abbrev pub clean_given : FilePath → FilePath
  clean_given p = if is_empty_path p then p else clean p

  abbrev pub asked : PairSide → Dirs → Result PairSide
  asked side (dirs ds) = ok side
  asked side no_folder = err "the folder does not exist on the device"
  asked side (unreachable e) = err ("the device is not reachable: " <> e)

  abbrev pub validate_path : PairSide → NodeInfo → Result FilePath → Result PairSide
  validate_path side info (err e) = err e
  validate_path side info (ok p) =
      asked (set_path side (clean_given p)) (W.list_dirs info (clean_given p))

  abbrev pub validate_agent : PairSide → Option NodeInfo → Result PairSide
  validate_agent side none = err "the device is not registered (is its agent running?)"
  validate_agent side (some info) = validate_path side info (agent_path info side.path)

  unfoldable pub validate_side : PairSide → Result PairSide
  unfolding local_dir clean is_local rel info_of
  validate_side side =
      if not (side.drive == "") && not (side.device == "")
      then err "side must be either a device folder or a google drive folder, not both"
      else if not (side.drive == "")
      then validate_drive side W.drive
      else if side.device == ""
      then err "side requires device (and path) or drive"
      else if side.device == local_device
      then validate_local side (local_dir side.path)
      else validate_agent side (info_of side.device W.devices)

-- A path as the text that the code reads: its elements between slashes.
abbrev pub joined : List String → String
joined [] = ""
joined (e ∷ []) = e
joined (e ∷ x ∷ es) = e <> ("/" <> joined (x ∷ es))

abbrev pub text_of : FilePath → String
text_of p = if p.rooted then "/" <> joined p.elements else joined p.elements

-- `strings.Trim(s, "/")`
unfoldable pub trim_left : String → String
trim_left String.[] = ""
trim_left (String.◌∷◌ c s) = if nat_eqb (code c) b'/' then trim_left s else String.◌∷◌ c s

unfoldable pub trim_right : String → String
trim_right String.[] = ""
trim_right (String.◌∷◌ c s) =
    let rest = trim_right s in if nat_eqb (code c) b'/' && rest == "" then "" else String.◌∷◌ c rest

unfoldable pub trimmed : String → String
unfolding trim_left trim_right
trimmed s = trim_right (trim_left s)

-- `strings.HasPrefix(s, prefix)`
unfoldable pub has_prefix : String → String → Bool
has_prefix s String.[] = true
has_prefix String.[] (String.◌∷◌ d p) = false
has_prefix (String.◌∷◌ c s) (String.◌∷◌ d p) = nat_eqb (code c) (code d) && has_prefix s p

-- The test on two trimmed paths of one device.
unfoldable pub shares : String → String → Bool
unfolding has_prefix
shares pa pb =
    pa == pb
    || pa == ""
    || pb == ""
    || has_prefix (pa <> "/") (pb <> "/")
    || has_prefix (pb <> "/") (pa <> "/")

unfoldable pub overlaps : PairSide → PairSide → Bool
unfolding trimmed shares
overlaps a b =
    if not (a.drive == "") || not (b.drive == "")
    then (not (a.drive == "") && a.drive == b.drive) && a.folder_id == b.folder_id
    else if not (a.device == b.device)
    then false
    else shares (trimmed (text_of a.path)) (trimmed (text_of b.path))

-- The calls of the table of pairs.
pub record PairStore : Type 1 where
  pub State : Type 0
  pub create_pair : State → Pair → State × Result ℕ
  pub delete_pair : State → ℕ → State × Result {0} Unit
  pub list_pairs : State → Result (List Pair)

module _ (W : Surroundings) (P : PairStore) where
  abbrev pub create_valid : Pair → PairSide → PairSide → P.State → P.State × Result ℕ
  create_valid p a b s =
      if overlaps a b
      then (s, err "sides point to the same folder or one is inside the other")
      else P.create_pair s (record p { a = a; b = b; last_status = "pending" })

  unfoldable pub create : Pair → P.State → P.State × Result ℕ
  unfolding validate_side overlaps
  create p s = elim (validate_side W p.a) [
    | err e ↦ (s, err ("side a: " <> e))
    | ok a ↦ elim (validate_side W p.b) [
      | err e ↦ (s, err ("side b: " <> e))
      | ok b ↦ create_valid p a b s
    ]
  ]

abbrev pub using_device : String → List Pair → List ℕ
using_device device [] = []
using_device device (p ∷ ps) =
    let rest = using_device device ps in
    if p.a.device == device || p.b.device == device then p.id ∷ rest else rest

-- The status and the text of an error that `Run` records. `show` writes a number in decimal.
abbrev pub status_of : (ℕ → String) → Result (List String) → String × String
status_of show (err e) = ("error", e)
status_of show (ok []) = ("ok", "")
status_of show (ok (e ∷ [])) = ("error", e)
status_of show (ok (e ∷ x ∷ es)) = ("error", e <> " (and " <> show (length (x ∷ es)) <> " more)")

module _ (S : StateStore) (P : PairStore) (show : ℕ → String) where
  abbrev pub side_node_id : ℕ → String → String
  side_node_id id key = "pair" <> show id <> ":" <> key

  unfoldable pub delete : ℕ → P.State → S.Store → (P.State × S.Store) × Result {0} Unit
  delete id s t =
      let (s', gone) = P.delete_pair s id in
      elim gone [
        | err e ↦ ((s', t), err e)
        | ok u ↦ (
          (s', forget_node S (forget_node S t (side_node_id id "a")) (side_node_id id "b")),
          ok tt,
        )
      ]

  unfoldable pub pairs_using_device : String → P.State → Result (List ℕ)
  pairs_using_device device s = elim (P.list_pairs s) [
    | err e ↦ err e
    | ok ps ↦ ok (using_device device ps)
  ]
