-- ===== src/Chunk/Count.antt =====
-- The number of finished chunks when one chunk changes.
use muld.Prelude.{
  ℕ, zero, suc, ◌<◌, ◌≤◌, ◌≡◌, false, some, List, [], ◌∷◌, length, get_elem?, set, if◌then◌else◌,
  arith,
}
use muld.Chunk.{ChunkInfo, is_finished}
use muld.Chunk.Work.{count_finished}

pub count_finished-set :
    (cs : List ChunkInfo) (i : ℕ) (old new : ChunkInfo)
    → get_elem? cs i ≡ some old
    → is_finished old ≡ false
    → count_finished (set cs i new)
      ≡ (if is_finished new then suc (count_finished cs) else count_finished cs)
unfolding count_finished
count_finished-set [] i old new h open_chunk = absurd (cc)
count_finished-set (c ∷ cs) zero old new h open_chunk = ground arith
count_finished-set (c ∷ cs) (suc i) old new h open_chunk =
    ground (arith, count_finished-set cs i old new h open_chunk)

pub count_finished_le : (cs : List ChunkInfo) → count_finished cs ≤ length cs
unfolding count_finished
count_finished_le [] = omega arith
count_finished_le (c ∷ cs) = ground (arith, count_finished_le cs)

pub count_finished_lt :
    (cs : List ChunkInfo) (i : ℕ) (c : ChunkInfo)
    → get_elem? cs i ≡ some c
    → is_finished c ≡ false
    → count_finished cs < length cs
unfolding count_finished
count_finished_lt [] i c h open_chunk = absurd (cc)
count_finished_lt (c' ∷ cs) zero c h open_chunk = ground (arith, count_finished_le cs)
count_finished_lt (c' ∷ cs) (suc i) c h open_chunk =
    ground (arith, count_finished_lt cs i c h open_chunk)
