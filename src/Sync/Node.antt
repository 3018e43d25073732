-- ===== src/Sync/Node.antt =====
-- The `Node` interface of internal/sync/node.go, as the engine sees a node: a state of its own,
-- read and changed by its methods. What a node promises is `IsLawful`.
pub use sync_vault.Base.{Result, ok, err}
use sync_vault.Base.{◌≡◌, ◌≢◌, String, List, Option, none, some, All, string_eq}
use sync_vault.Sync.Files.{FileEntry, NodupPaths, hash_at}
use sync_vault.Sync.Merkle.Soundness.{IsHex}

-- A method that changes the node gives the new state, and the error if it failed.
pub record Node : Type 1 where
  pub State : Type 0
  pub id : String
  pub list_files : State → Result (List FileEntry)
  pub read_file : State → String → Result String
  pub write_file : State → String → String → State × Option String
  pub delete_file : State → String → State × Option String

-- `view s p` is the hash of the file at `p`, if there is one. `content_hash` is the hash of a
-- content. A failed write may leave anything at its own path, and nothing elsewhere. The hashes of
-- a listing hold no colon, which is so of SHA-256 in hexadecimal, and not of the hashes that the
-- adapter of Google Drive makes up for files without a checksum.
pub record IsLawful (N : Node) (content_hash : String → String) : Type 1 where
  pub view : N.State → String → Option String
  pub listed : (s : N.State) (fs : List FileEntry) → N.list_files s ≡ ok fs → NodupPaths fs
  pub listed_hex : (s : N.State) (fs : List FileEntry) → N.list_files s ≡ ok fs → All IsHex fs
  pub listed_view :
      (s : N.State) (fs : List FileEntry)
      → N.list_files s ≡ ok fs
      → (p : String) → hash_at p fs ≡ view s p
  pub read :
      (s : N.State) (p c : String) → N.read_file s p ≡ ok c → view s p ≡ some (content_hash c)
  pub write :
      (s : N.State) (p c : String)
      → (N.write_file s p c).1 ≡ none
      → view (N.write_file s p c).0 p ≡ some (content_hash c)
  pub write_elsewhere :
      (s : N.State) (p c q : String) → q ≢ p → view (N.write_file s p c).0 q ≡ view s q
  pub delete :
      (s : N.State) (p : String)
      → (N.delete_file s p).1 ≡ none
      → view (N.delete_file s p).0 p ≡ none
  pub delete_elsewhere :
      (s : N.State) (p q : String) → q ≢ p → view (N.delete_file s p).0 q ≡ view s q

-- Why a copy failed.
pub data Fault : Type 0 where
  read_failed write_failed : String → Fault

abbrev pub fault_of : Option String → Option Fault
fault_of none = none
fault_of (some e) = some (write_failed e)

module _ (From To : Node) where
  -- `transfer`: the state of the receiving node, and the error.
  unfoldable pub transfer : From.State → To.State → String → To.State × Option Fault
  transfer s t p = elim (From.read_file s p) [
    | err e ↦ (t, some (read_failed e))
    | ok c ↦ let (t', e) = To.write_file t p c in (t', fault_of e)
  ]
