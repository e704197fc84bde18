-- ===== src/Repository/Verify.antt =====
-- `Repo::verify`, `Repo::du` and `Repo::list_reachable_chunks` of lib/src/lib.rs.
pub mod Noted
use rdedup.Base.{
  ℕ, zero, suc, ◌≡◌, ◌≢◌, subst, Bytes, length, Bool, true, false, if◌then◌else◌, Option, none,
  some, Result, ok, err, panics, stuck, ErrorKind, List, [], ◌∷◌,
}
use rdedup.Io.{Io, pure, lift, continue, ◌>>=◌, attempt}
use rdedup.SgData.{ArcRefs}
use rdedup.Encryption.{Decrypter}
use rdedup.Generation.{Decoders}
use rdedup.Aio.{Backend}
use rdedup.Name.{Name, Yaml, load_from_any}
use rdedup.Reading.{DataType, data_chunk, index, Writer, on_data, translate, read_recursively}
use rdedup.Reading.Decode.{Repo}
use rdedup.Reading.Recording.{
  has_digest, insert_digest, counter, Verifying, note_error, verifying_read, verifying_accessor,
  recording_accessor, raw_read,
}
use rdedup.Repository.{read_generations, strings, list_all}

pub record DuResults : Type 0 where
  pub chunks : ℕ
  pub bytes : ℕ

pub record VerifyResults : Type 0 where
  pub scanned : ℕ
  pub errors : List (Bytes × ErrorKind)

module _ (R : ArcRefs) (B : Backend R) (D : Decoders) (repo : Repo R) (Y : Yaml) where
  open B use {State}

  -- The traversal that both operations make, from the point where the generations are known: what
  -- was met, and the bytes that were counted.
  unfoldable pub verify_traversal : Decrypter R → List Bytes → Name → Io State (Verifying × ℕ)
  verify_traversal decrypter gens name s =
      let (r, ((s', v), count)) =
        read_recursively (verifying_accessor R B repo (some decrypter) gens) name.index_level
          (some counter) data_chunk name.digest ((s, record { accessed = []; errors = [] }), 0) in
      continue (r, s') (λ _. pure (v, count))

  unfoldable pub verify_name : Decrypter R → List Bytes → Bytes → Io State (Verifying × ℕ)
  unfolding verify_traversal
  verify_name decrypter gens name_str = do
    name ← load_from_any R B Y name_str gens
    verify_traversal decrypter gens name

  unfoldable pub verify : Decrypter R → Bytes → Io State VerifyResults
  unfolding verify_name read_generations
  verify decrypter name_str = do
    gens ← read_generations R B D
    found ← verify_name decrypter (strings R B D gens) name_str
    pure (record { scanned = length found.0.accessed; errors = found.0.errors })

  unfoldable pub du : Decrypter R → Bytes → Io State DuResults
  unfolding verify_name read_generations
  du decrypter name_str = do
    gens ← read_generations R B D
    found ← verify_name decrypter (strings R B D gens) name_str
    pure (record { chunks = length found.0.accessed; bytes = found.1 })

  -- Without a writer and without a key.
  unfoldable pub reachable_recursively_insert :
      List Bytes → Name → List Bytes → Io State (List Bytes)
  unfolding insert_digest
  reachable_recursively_insert gens name reachable_digests s =
      let (r, ((s', accessed), x)) =
        read_recursively (recording_accessor R B repo none gens) name.index_level {X = Unit {0}}
          none data_chunk name.digest ((s, insert_digest name.digest reachable_digests), tt) in
      continue (r, s') (λ _. pure accessed)

  -- A name that cannot be loaded is passed over.
  reach_loaded : List Bytes → Result Name → List Bytes → Io State (List Bytes)
  unfolding reachable_recursively_insert
  reach_loaded gens (ok name) digests = reachable_recursively_insert gens name digests
  reach_loaded gens (err e) digests = pure digests
  reach_loaded gens panics digests = lift panics
  reach_loaded gens stuck digests = lift stuck

  reach_each : List Bytes → List Bytes → List Bytes → Io State (List Bytes)
  unfolding reach_loaded
  reach_each gens [] digests = pure digests
  reach_each gens (name_str ∷ names) digests = do
    name ← attempt (load_from_any R B Y name_str gens)
    digests' ← reach_loaded gens name digests
    reach_each gens names digests'

  unfoldable pub list_reachable_chunks : Io State (List Bytes)
  unfolding reach_each read_generations list_all
  list_reachable_chunks = do
    gens ← read_generations R B D
    all_names ← list_all R B D (strings R B D gens)
    reach_each (strings R B D gens) all_names []
