-- ===== src/Tests/Windows.antt =====
-- Two requests a second, over one sorted set in memory.
use sync_vault.Base.{ℕ, ◌≤◌, refl, inl, List, [], ◌∷◌, Option, none, some, ok, length, arith}
use sync_vault.RateLimit.{SortedSets, IsLawful, above, place}
use sync_vault.RateLimit.Counts.{count_within}
use sync_vault.RateLimit.Window.{serve, serve-within}

abbrev head : List ℕ → Option ℕ
head [] = none
head (x ∷ xs) = some x

abbrev one_set : SortedSets
one_set = record {
  State = List ℕ;
  scores = λ s k. s;
  remove_upto = λ s k b. above b s;
  card = λ s k. length s;
  first = λ s k. head s;
  add = λ s k x. place x s;
  expire = λ s k t. s;
  eval = λ f s. ((f s).0, ok (f s).1);
}

one_set-IsLawful : IsLawful one_set
one_set-IsLawful = record {
  scores-remove_upto = λ s k b. refl;
  card-length = λ s k. refl;
  scores-add = λ s k x. refl;
  scores-expire = λ s k t. refl;
  eval_outcome = λ f s. inl refl;
}

abbrev times : List ℕ
times = 5000 ∷ 5100 ∷ 5200 ∷ 6050 ∷ 6060 ∷ []

serve-within_example :
    count_within 1000 6060 (serve one_set one_set-IsLawful "u" 2 1000 times []) ≤ 2
serve-within_example =
    serve-within one_set one_set-IsLawful "u" 2 1000 6060 5000 times []
      (omega arith, (omega arith, (omega arith, (omega arith, (omega arith, tt))))) (omega arith)
