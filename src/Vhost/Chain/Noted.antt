-- ===== src/Vhost/Chain/Noted.antt =====
-- The walk of walkChain (pkg/vhost/worker.go, blkreq.go) with its calls of EnsureLoaded and MarkDirty
-- noted.
use sandboxer.Prelude.{
  ℕ, ◌≤◌, ◌≡◌, List, [], ◌∷◌, Bool, true, false, ◌==◌, ◌&&◌, ◌||◌, if◌then◌else◌, All, arith,
}
use sandboxer.Vhost.{IoReply, World}
use sandboxer.Vhost.Laws.{Yields}
use sandboxer.Vhost.Memory.Translate.{
  Changes, by_context, by_stop, by_ensure, by_mark, by_load, IsPopulating, IsBound,
}
use sandboxer.Vhost.Chain.{Virtq, walk_chain}
use sandboxer.Vhost.Chain.Walk.{segments, NotStuck, IsReady, walk_chain_lem}

-- The ranges that EnsureLoaded has accepted, and those that MarkDirty has.
abbrev pub Notes : Type 0
Notes = List (ℕ × ℕ) × List (ℕ × ℕ)

abbrev pub lists : ℕ → ℕ → List (ℕ × ℕ) → Bool
lists at len [] = false
lists at len (r ∷ rs) = (r.0 == at && r.1 == len) || lists at len rs

abbrev noted : {W : Type 0} → Notes → IoReply W → IoReply (W × Notes)
noted n r = record { count = r.count; bytes = r.bytes; error = r.error; world = (r.world, n) }

-- A world that does what `g` does, and keeps notes.
unfoldable pub noting : {W : Type 0} → World W → World (W × Notes)
noting g = record {
  context_error = λ w. let r = g.context_error w.0 in (r.0, (r.1, w.1));
  stopped = λ w. let r = g.stopped w.0 in (r.0, (r.1, w.1));
  ensure_loaded = λ at len w.
      let r = g.ensure_loaded at len w.0 in
      (r.0, (r.1, (if r.0 then w.1.0 else (at, len) ∷ w.1.0, w.1.1)));
  mark_dirty = λ at len w.
      let r = g.mark_dirty at len w.0 in
      (r.0, (r.1, (w.1.0, if r.0 then w.1.1 else (at, len) ∷ w.1.1)));
  load = λ at len w. let r = g.load at len w.0 in (r.0, (r.1, w.1));
  store = λ at bytes w. (g.store at bytes w.0, w.1);
  size = g.size;
  is_read_only = g.is_read_only;
  supports_discard = g.supports_discard;
  read_at = λ off len w. noted w.1 (g.read_at off len w.0);
  write_at = λ bytes off w. noted w.1 (g.write_at bytes off w.0);
  flush = λ w. let r = g.flush w.0 in (r.0, (r.1, w.1));
  discard = λ off len w. let r = g.discard off len w.0 in (r.0, (r.1, w.1));
}

abbrev pub HasLoaded : {W : Type 0} → ℕ → ℕ → W × Notes → Type 0
HasLoaded at len w = lists at len w.1.0 ≡ true

abbrev pub HasMarked : {W : Type 0} → ℕ → ℕ → W × Notes → Type 0
HasMarked at len w = lists at len w.1.1 ≡ true

module _ {W : Type 0} (g : World W) where
  loaded_stays :
      (at len : ℕ) {w w' : W × Notes}
      → Changes (noting g) w w'
      → HasLoaded at len w
      → HasLoaded at len w'
  unfolding noting
  loaded_stays at len by_context h = h
  loaded_stays at len by_stop h = h
  loaded_stays at len (by_ensure a l) h = ground (arith, h)
  loaded_stays at len (by_mark a l) h = h
  loaded_stays at len (by_load a l) h = h

  marked_stays :
      (at len : ℕ) {w w' : W × Notes}
      → Changes (noting g) w w'
      → HasMarked at len w
      → HasMarked at len w'
  unfolding noting
  marked_stays at len by_context h = h
  marked_stays at len by_stop h = h
  marked_stays at len (by_ensure a l) h = h
  marked_stays at len (by_mark a l) h = ground (arith, h)
  marked_stays at len (by_load a l) h = h

  pub noting-IsPopulating : IsPopulating (noting g) HasLoaded HasMarked
  unfolding noting
  noting-IsPopulating = record {
    loads = λ at len w h. ground (arith, h);
    marks = λ at len w h. ground (arith, h);
    stays_loaded = loaded_stays;
    stays_marked = marked_stays;
  }

  -- The walk ends within its turns, whatever the guest writes into the ring and whatever the
  -- callbacks answer. A chain that it accepts has at most `num` slices, none of them empty; each lies
  -- in the slab, and its range has been accepted by EnsureLoaded, and by MarkDirty if the slice is for
  -- writing and marks are kept. Whether the pages stay loaded after that is not said.
  pub walk_chain-IsReady :
      (slab : ℕ) (q : Virtq)
      → All (IsBound slab) q.table.regions
      → (head : ℕ) (w : W)
      → Yields
          (λ c w'. IsReady (noting g) noting-IsPopulating slab q c w' × (segments c ≤ q.num))
          NotStuck
          (walk_chain (noting g) q head (w, ([], [])))
  walk_chain-IsReady slab q bound head w =
      walk_chain_lem (noting g) noting-IsPopulating slab q bound head (w, ([], []))
