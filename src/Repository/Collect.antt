-- ===== src/Repository/Collect.antt =====
-- `Repo::gc` of lib/src/lib.rs.
use rdedup.Base.{ℕ, zero, suc, Bytes, panics, stuck, expect, List, [], ◌∷◌}
use rdedup.Io.{Io, pure, lift, ◌>>=◌, ◌>>◌, last}
use rdedup.SgData.{ArcRefs}
use rdedup.Generation
use rdedup.Generation.{Generation, Decoders, gen_next}
use rdedup.Aio.{Backend}
use rdedup.Name.{Yaml}
use rdedup.Reading.Decode.{Repo}
use rdedup.Repository.{
  Clock, read_generations, strings, list, write_generation, wipe_generation_maybe, update_name_to,
}

module _ (R : ArcRefs) (B : Backend R) (D : Decoders) (T : Clock) (repo : Repo R) (Y : Yaml) where
  open B use {State}

  -- With no name left, the oldest generation is deleted; the first name that is left is moved, and
  -- the loop goes on with `again`.
  on_names :
      ℕ
      → T.Time
      → List Generation
      → Bytes
      → Bytes
      → List Bytes
      → Io State (Unit {0})
      → Io State (Unit {0})
  unfolding wipe_generation_maybe update_name_to
  on_names min_age_secs now gens oldest cur [] again =
      wipe_generation_maybe R B D T oldest min_age_secs now
  on_names min_age_secs now gens oldest cur (name ∷ names) again = do
    update_name_to R B D repo Y name cur (strings R B D gens)
    again

  -- A round of the loop, by the generations that are there.
  on_gens : ℕ → T.Time → List Generation → Io State (Unit {0}) → Io State (Unit {0})
  unfolding on_names list
  on_gens min_age_secs now [] again = lift panics
  on_gens min_age_secs now (gen ∷ []) again = pure tt
  on_gens min_age_secs now (oldest ∷ gen ∷ gens) again = do
    cur ← lift (expect (last (oldest ∷ gen ∷ gens)))
    names ← list R B D (Generation.to_string oldest)
    on_names min_age_secs now (oldest ∷ gen ∷ gens) (Generation.to_string oldest)
        (Generation.to_string cur) names again

  unfoldable pub gc_loop : ℕ → ℕ → T.Time → Io State (Unit {0})
  unfolding on_gens read_generations
  gc_loop zero min_age_secs now = lift stuck
  gc_loop (suc fuel) min_age_secs now = do
    gens ← read_generations R B D
    on_gens min_age_secs now gens (gc_loop fuel min_age_secs now)

  -- With one generation a new one is begun, with the random number `rand`; with more, a collection
  -- that was broken off goes on.
  begin : ℕ → T.Time → List Generation → Io State (Unit {0})
  unfolding write_generation
  begin rand created (gen ∷ []) =
      write_generation R B D T created (Generation.to_string (gen_next rand gen))
  begin rand created gens = pure tt

  from_gens : ℕ → ℕ → ℕ → T.Time → T.Time → List Generation → Io State (Unit {0})
  unfolding begin gc_loop
  from_gens fuel rand min_age_secs created now [] = pure tt
  from_gens fuel rand min_age_secs created now (gen ∷ gens) = do
    begin rand created (gen ∷ gens)
    gc_loop fuel min_age_secs now

  unfoldable pub gc : ℕ → ℕ → ℕ → T.Time → T.Time → Io State (Unit {0})
  unfolding from_gens read_generations
  gc fuel rand min_age_secs created now = do
    gens ← read_generations R B D
    from_gens fuel rand min_age_secs created now gens
