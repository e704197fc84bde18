-- ===== src/Chunking.antt =====
-- lib/src/chunking.rs: the stream of input buffers is cut into chunks. The edges come from an
-- engine of the crate `rdedup_cdc`, which is a parameter.
pub mod Next
pub mod Stream
use rdedup.Base.{
  ℕ, zero, suc, ◌+◌, leb, ◌==◌, if◌then◌else◌, Option, none, some, List, [], ◌∷◌, ◌++◌, Result, ok,
  err, panics, stuck, add_u64, Bytes, length, ◌≡◌, ◌<◌,
}
use rdedup.SgData.{ArcRefs, SgData}
use rdedup.SgData

-- The trait `Chunking`: `Bup`, `Gear` and `FastCDC` pass the call on to the engine of their name.
-- An edge splits the buffer; with none in sight the engine has taken the buffer in.
pub record Chunking : Type 1 where
  pub Engine : Type 0
  pub find_chunk : Engine → Bytes → Engine × Option (Bytes × Bytes)

-- What the program relies on in an engine: an edge splits the buffer in two, and lies behind at
-- least one byte.
pub record IsChunking (C : Chunking) : Type 0 where
  pub splits :
      (g : C.Engine) (buf : Bytes) {last rest : Bytes}
      → (C.find_chunk g buf).1 ≡ some (last, rest)
      → (last ++ rest ≡ buf) × (0 < length last)

module _ (R : ArcRefs) (C : Chunking) where
  open R use {Ref, deref, slice}
  open C use {Engine, find_chunk}

  pub record Chunker : Type 0 where
    pub iter : List Bytes
    -- pieces of the chunk to return next, not yet complete
    pub incomplete_chunk : SgData R
    -- data that was not chunked yet
    pub pending : Option Ref
    pub chunks_returned : ℕ
    pub chunking : Engine

  unfoldable pub new : List Bytes → Engine → Chunker
  new iter chunking = record {
    iter = iter;
    incomplete_chunk = SgData.empty R;
    pending = none;
    chunks_returned = 0;
    chunking = chunking;
  }

  -- `self.pending.take().or_else(|| self.iter.next()…)`
  abbrev take_buf : Option Ref → List Bytes → Option (Ref × List Bytes)
  take_buf (some buf) iter = some (buf, iter)
  take_buf none [] = none
  take_buf none (v ∷ iter) = some (R.new v, iter)

  abbrev rest_of : Ref → Bytes → Bytes → Option Ref
  rest_of buf last [] = none
  rest_of buf last (b ∷ rest) = some (slice (length last) (length (deref buf)) buf)

  -- One round of the loop of `next`: it returns a chunk or the end, or it goes on.
  pub data Round : Type 0 where
    returns : Option (SgData R) → Chunker → Round
    continues : Chunker → Round

  on_edge : Ref → Bytes → Bytes → Chunker → Round
  on_edge buf last rest c =
      let chunk = SgData.push_arcref R c.incomplete_chunk (slice 0 (length last) buf) in
      let c' : Chunker = record c { incomplete_chunk = chunk; pending = rest_of buf last rest } in
      if leb 64 (SgData.len R chunk)
      then returns (some chunk) (record c' {
        incomplete_chunk = SgData.empty R;
        chunks_returned = add_u64 c.chunks_returned 1;
      })
      else continues c'

  on_found : Ref → Option (Bytes × Bytes) → Chunker → Round
  unfolding on_edge
  on_found buf (some (last, rest)) c = on_edge buf last rest c
  on_found buf none c =
      continues (record c { incomplete_chunk = SgData.push_arcref R c.incomplete_chunk buf })

  at_end : Chunker → Round
  at_end c =
      if SgData.is_empty R c.incomplete_chunk
      then if c.chunks_returned == 0
        then returns (some (SgData.empty R)) (record c { chunks_returned = add_u64 0 1 })
        else returns none c
      else returns (some c.incomplete_chunk) (record c {
        incomplete_chunk = SgData.empty R;
        chunks_returned = add_u64 c.chunks_returned 1;
      })

  on_buf : Option (Ref × List Bytes) → Chunker → Round
  unfolding on_found at_end
  on_buf (some (buf, iter)) c =
      let (engine, found) = find_chunk c.chunking (deref buf) in
      on_found buf found (record c { iter = iter; pending = none; chunking = engine })
  on_buf none c = at_end c

  unfoldable pub round : Chunker → Round
  unfolding on_buf
  round c = on_buf (take_buf c.pending c.iter) c

  next_loop : ℕ → Chunker → Result (Option (SgData R)) × Chunker
  unfolding round
  next_loop zero c = (stuck, c)
  next_loop (suc fuel) c = elim (round c) [
    | returns r c' ↦ (ok r, c')
    | continues c' ↦ next_loop fuel c'
  ]

  -- What is left to look at: a round takes one off for a buffer, and one for each byte behind an
  -- edge.
  abbrev pub sizes : List Bytes → ℕ
  sizes [] = 0
  sizes (v ∷ iter) = suc (length v + sizes iter)

  abbrev pub pending_bytes : Option Ref → Bytes
  pending_bytes none = []
  pending_bytes (some buf) = deref buf

  abbrev pub pending_size : Option Ref → ℕ
  pending_size none = 0
  pending_size (some buf) = suc (length (deref buf))

  abbrev pub to_scan : Chunker → ℕ
  to_scan c = pending_size c.pending + sizes c.iter

  unfoldable pub next : Chunker → Result (Option (SgData R)) × Chunker
  unfolding next_loop
  next c = next_loop (suc (to_scan c)) c

  cons_chunk : SgData R → Result (List (SgData R)) → Result (List (SgData R))
  cons_chunk sg (ok sgs) = ok (sg ∷ sgs)
  cons_chunk sg r = r

  after_next :
      Result (Option (SgData R)) × Chunker
      → (Chunker → Result (List (SgData R)))
      → Result (List (SgData R))
  unfolding cons_chunk
  after_next (ok (some sg), c) rest = cons_chunk sg (rest c)
  after_next (ok none, c) rest = ok []
  after_next (err e, c) rest = err e
  after_next (panics, c) rest = panics
  after_next (stuck, c) rest = stuck

  -- The loop of the thread `chunker`: `while let Some(..) = data.next()`.
  unfoldable pub all_chunks : ℕ → Chunker → Result (List (SgData R))
  unfolding next after_next
  all_chunks zero c = stuck
  all_chunks (suc fuel) c = after_next (next c) (all_chunks fuel)
