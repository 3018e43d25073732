-- ===== src/Sync/Engine/Detection.antt =====
-- The vector clocks tell which node has changed a file since both had the same state of it.
use native.Mathlib.Nat.{mod-eq_of_lt}
use sync_vault.Base.{
  ℕ, ◌+◌, ◌<◌, ◌≡◌, ◌≢◌, String, Bool, true, false, arith, ◌==◌, string_eq, if◌then◌else◌, ==-refl,
}
use sync_vault.Sync.Clock.{
  VectorClock, u64, count, increment, Relation, before, after, equal, concurrent, compare,
}
use sync_vault.Sync.Clock.Order.{Means}
use sync_vault.Sync.Clock.Growth.{compare_of_Means, count-increment}
use sync_vault.Sync.Files.{FileEntry}
use sync_vault.Sync.State.{FileState, observe}

-- Both clocks count the same at every node.
abbrev pub SameCounts : VectorClock → VectorClock → Type 0
SameCounts a b = (n : String) → count n a ≡ count n b

abbrev pub HasRoom : String → VectorClock → Type 0
HasRoom n c = count n c + 1 < u64

-- The relation that the changes on the two nodes call for.
unfoldable pub expected : Bool → Bool → Relation
expected false false = equal
expected true false = after
expected false true = before
expected true true = concurrent

counted : VectorClock → String → Bool → VectorClock
counted c n true = increment c n
counted c n false = c

counted-compare :
    (a b : String) (c d : VectorClock) (x y : Bool)
    → a ≢ b
    → SameCounts c d
    → HasRoom a c
    → HasRoom b d
    → Means (counted c a x) (counted d b y) (expected x y)
unfolding counted expected
counted-compare a b c d false false ne same ra rb =
    (λ n. omega (arith, same n), λ n. omega (arith, same n))
counted-compare a b c d true false ne same ra rb = (
  λ l. absurd (ground (arith, l a, count-increment a a c, ==-refl a, mod-eq_of_lt ra, same a)),
  λ n. ground (arith, count-increment n a c, mod-eq_of_lt ra, same n),
)
counted-compare a b c d false true ne same ra rb = (
  λ n. ground (arith, count-increment n b d, mod-eq_of_lt rb, same n),
  λ l. absurd (ground (arith, l b, count-increment b b d, ==-refl b, mod-eq_of_lt rb, same b)),
)
counted-compare a b c d true true ne same ra rb = (
  λ l. absurd (
      ground (
        arith,
        l a,
        count-increment a a c,
        count-increment a b d,
        ==-refl a,
        mod-eq_of_lt ra,
        same a,
      )),
  λ l. absurd (
      ground (
        arith,
        l b,
        count-increment b b d,
        count-increment b a c,
        ==-refl b,
        mod-eq_of_lt rb,
        same b,
      )),
)

-- Whether the file differs from its recorded state.
abbrev pub has_changed : FileState → FileEntry → Bool
has_changed st f = if st.hash == f.hash then false else true

observe-clock :
    (n : String) (f : FileEntry) (st : FileState) (now : ℕ)
    → (observe n f st now).clock ≡ counted st.clock n (has_changed st f)
unfolding observe counted
observe-clock n f st now = ground arith

-- From recorded states whose clocks count the same, the observed clocks are `Equal` where neither
-- node has changed the file, `After` where the source alone has, `Before` where the target alone
-- has, and `Concurrent` where both have. The nodes have different names and no counter is full.
pub observe-compare :
    (a b : String) (f h : FileEntry) (src dst : FileState) (t u : ℕ)
    → a ≢ b
    → SameCounts src.clock dst.clock
    → HasRoom a src.clock
    → HasRoom b dst.clock
    → compare (observe a f src t).clock (observe b h dst u).clock
      ≡ expected (has_changed src f) (has_changed dst h)
observe-compare a b f h src dst t u ne same ra rb =
    rw (observe-clock a f src t, observe-clock b h dst u)
      (compare_of_Means _ _ _ (
        counted-compare a b src.clock dst.clock (has_changed src f) (has_changed dst h) ne same ra
          rb))
