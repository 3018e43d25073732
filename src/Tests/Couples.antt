-- ===== src/Tests/Couples.antt =====
-- Pairs of folders of one computer.
use sync_vault.Base.{
  ◌≡◌, ◌↔◌, ◌⊎◌, refl, String, true, false, List, [], ◌∷◌, none, ok, err, string_eq,
}
use sync_vault.Sync.Paths.{clean, join, is_local, resolve_inside}
use sync_vault.Sync.Paths.Spellings.{path}
use sync_vault.Sync.Registry.{new_node_registry}
use sync_vault.Sync.Pairs.{
  PairSide, Pair, Surroundings, dirs, PairStore, text_of, trimmed, overlaps, validate_side, create,
  local_dir,
}
use sync_vault.Sync.Pairs.Overlap.{Within, overlaps_shared}
use sync_vault.Sync.Pairs.Creating.{Stored, create_outcome}

abbrev surroundings : Surroundings
surroundings = record {
  Impl = Unit;
  drive = none;
  local_root = path true ("home" ∷ []);
  is_dir = λ p. true;
  devices = new_node_registry;
  path_of = λ s. path true (s ∷ []);
  list_dirs = λ info p. dirs [];
}

abbrev table : PairStore
table = record {
  State = List Pair;
  create_pair = λ s p. (p ∷ s, ok 1);
  delete_pair = λ s id. ([], ok tt);
  list_pairs = λ s. ok s;
}

abbrev side : List String → PairSide
side es = record {
  device = "local";
  path = path false es;
  drive = "";
  folder_id = "";
  user_id = "";
}

abbrev pair : Pair
pair = record {
  id = 0;
  name = "photos";
  a = side ("a" ∷ []);
  b = side ("b" ∷ "c" ∷ []);
  last_status = "";
  last_error = "";
}

create_outcome_example :
    ((e : String) × (create surroundings table pair [] ≡ ([], err e)))
    ⊎ Stored surroundings table pair [] (create surroundings table pair [])
create_outcome_example = create_outcome surroundings table pair []

created : (create surroundings table pair []).1 ≡ ok 1
unfolding create validate_side local_dir resolve_inside clean join is_local overlaps string_eq
created = refl

abbrev shown : List String → String
shown es = trimmed (text_of (path false es))

overlaps_shared_example :
    (overlaps (side ("a" ∷ [])) (side ("a" ∷ "c" ∷ [])) ≡ true)
    ↔ ((x : String) × Within (shown ("a" ∷ [])) x × Within (shown ("a" ∷ "c" ∷ [])) x)
overlaps_shared_example = overlaps_shared (side ("a" ∷ [])) (side ("a" ∷ "c" ∷ [])) refl refl refl

-- A name that begins with the name of a folder is not in the folder.
similar_names : overlaps (side ("a" ∷ [])) (side ("ab" ∷ [])) ≡ false
unfolding overlaps string_eq
similar_names = refl

-- The root of an agent, once it is clean, is not seen to hold its folders.
root_missed : overlaps (side ("." ∷ [])) (side ("docs" ∷ [])) ≡ false
unfolding overlaps string_eq
root_missed = refl
