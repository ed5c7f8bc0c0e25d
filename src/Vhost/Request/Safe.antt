-- ===== src/Vhost/Request/Safe.antt =====
-- What a request of pkg/vhost can do to guest memory and to the disk.
use sandboxer.Prelude.{
  ℕ, zero, suc, ◌+◌, ◌-◌, ◌*◌, ◌^◌, ◌≤◌, ◌<◌, ◌≡◌, Option, none, some, List, [], ◌∷◌, Bool, true,
  ltb, leb, ◌==◌, if◌then◌else◌, ◌||◌, length, take, drop, min, arith, inl, inr, Bool-cases,
  Option-cases, length-take,
}
use sandboxer.Vhost.{Run, pure, ◌>>=◌, ◌>>◌, ask, World, BackendError}
use sandboxer.Vhost.Laws.{>>=-stays}
use sandboxer.Vhost.Blk.{sector_size}
use sandboxer.Vhost.Memory.{Segment}
use sandboxer.Vhost.Memory.Translate.{Changes, by_stop}
use sandboxer.Vhost.Request.{
  max_read_window, max_discard_sectors, disk_bytes, choose_window, advance, is_ended,
  is_window_error, unless_stopped, scatter, settle_window, fill, read_window, read_loop,
}
use sandboxer.Vhost.Request.Windows.{
  in_segments, choose_window_inside, choose_window-length, advance_inside,
}

-- What a request whose writable slices are `ws` may do: it reads and discards whole ranges of the
-- disk's complete sectors, a MiB or 8192 sectors at most, and stores into its slices only.
pub data Acts {W : Type 0} (g : World W) (ws : List Segment) (w : W) : W → Type 0 where
  looks : {w' : W} → Changes g w w' → Acts g ws w w'
  reads :
      (off len : ℕ)
      → off + len ≤ disk_bytes g.size
      → len ≤ max_read_window
      → Acts g ws w (g.read_at off len w).world
  stores :
      (at : ℕ) (bytes : List ℕ)
      → ((i : ℕ) → i < length bytes → in_segments (at + i) ws ≡ true)
      → Acts g ws w (g.store at bytes w)
  writes : (bytes : List ℕ) (off : ℕ) → Acts g ws w (g.write_at bytes off w).world
  discards :
      (off len : ℕ)
      → off + len ≤ disk_bytes g.size
      → len ≤ max_discard_sectors * sector_size
      → Acts g ws w (g.discard off len w).1
  flushes : Acts g ws w (g.flush w).1

-- What the code relies on from ReadAt: it leaves a buffer of the length that it was given.
pub record FillsBuffer {W : Type 0} (g : World W) : Type 0 where
  pub fills : (off len : ℕ) (w : W) → length (g.read_at off len w).bytes ≡ len

module _ {W : Type 0} (g : World W) (fb : FillsBuffer g) (ws : List Segment) (K : W → Type 0)
    (acts : (w w' : W) → Acts g ws w w' → K w → K w') where
  abbrev pub Within : List Segment → Type 0
  Within ss = (x : ℕ) → in_segments x ss ≡ true → in_segments x ws ≡ true

  stop : (w : W) → K w → K (g.stopped w).1
  stop w k = acts w (g.stopped w).1 (looks by_stop) k

  pub unless_stopped-stays : (w : W) → K w → K (unless_stopped g w).1
  unless_stopped-stays w k = elim (Bool-cases (g.stopped w).0) [
    | inl a ↦ rw a (stop w k)
    | inr a ↦ rw a (stop w k)
  ]

  scatter-stays :
      (ss : List Segment) (bytes : List ℕ) (w : W) → Within ss → K w → K (scatter g ss bytes w).1
  unfolding scatter in_segments
  scatter-stays [] bytes w inside k = k
  scatter-stays (s ∷ ss) bytes w inside k = elim (Bool-cases (length bytes == 0)) [
    | inl a ↦ rw a k
    | inr a ↦ rw a (
        >>=-stays K (unless_stopped g)
          (λ u.
            ask (λ w'. (tt, g.store s.at (take s.len bytes) w')) >> scatter g ss (drop s.len bytes))
          w (unless_stopped-stays w k)
          (λ u w' k'.
            scatter-stays ss (drop s.len bytes) (g.store s.at (take s.len bytes) w')
              (λ x h. inside x (ground (arith, h)))
              (acts w' (g.store s.at (take s.len bytes) w')
                (stores s.at (take s.len bytes)
                  (λ i h. inside (s.at + i) (ground (arith, length-take s.len bytes, h))))
                k')))
  ]

  settle_window-stays :
      (buf : Option Segment) (ss : List Segment) (length n : ℕ) (bytes : List ℕ)
      (e : Option BackendError) (w : W)
      → Within ss
      → K w
      → K (settle_window g buf ss length n bytes e w).1
  unfolding settle_window
  settle_window-stays buf ss length n bytes e w inside k =
      elim (Bool-cases (leb (2 ^ 63) n || ltb length n)) [ inl a ↦ rw a k | inr a ↦ rw a (go buf) ]
    where
      go :
          (b : Option Segment)
          → K
              (((elim b as (λ x. Run W (Unit {0})) [
                | some s ↦ pure tt
                | none ↦ scatter g ss (take n bytes)
              ])
                  >>= λ u. pure {A = ℕ × Bool} (n, is_window_error n length e))
                w).1
      go none =
          >>=-stays K (scatter g ss (take n bytes))
            (λ u. pure {A = ℕ × Bool} (n, is_window_error n length e)) w
            (scatter-stays ss (take n bytes) w inside k) (λ u w' k'. k')
      go (some s) = k

  fill_stays :
      (offset length : ℕ) (ss : List Segment) (w : W)
      → Within ss
      → offset + (choose_window ss length).1 ≤ disk_bytes g.size
      → length ≤ max_read_window
      → K w
      → K (fill g (choose_window ss length).0 (g.read_at offset (choose_window ss length).1 w))
  fill_stays offset length ss w inside fits small k =
      let len = (choose_window ss length).1 in
      let r = g.read_at offset len w in
      let k' : K r.world =
        acts w r.world
          (reads offset len fits (omega (arith, small, choose_window-length ss length))) k in
      elim (Option-cases (choose_window ss length).0) [
        | inl e ↦ rw e k'
        | inr (b, e) ↦ rw e (
            acts r.world (g.store b.at r.bytes r.world)
              (stores b.at r.bytes (λ i h. inside (b.at + i) (
                choose_window_inside ss length (b.at + i) b e (omega arith)
                  (omega (arith, h, fb.fills offset len w)))))
              k')
      ]

  read_window-stays :
      (offset length : ℕ) (ss : List Segment) (w : W)
      → Within ss
      → offset + (choose_window ss length).1 ≤ disk_bytes g.size
      → length ≤ max_read_window
      → K w
      → K (read_window g offset ss length w).1
  unfolding read_window
  read_window-stays offset length ss w inside fits small k =
      let (buf, len) = choose_window ss length in
      let r = g.read_at offset len w in
      let k' = fill_stays offset length ss w inside fits small k in
      elim (Bool-cases (is_ended r.error)) [
        | inl a ↦ rw a k'
        | inr a ↦ rw a (
            >>=-stays K (unless_stopped g) (λ u. settle_window g buf ss len r.count r.bytes r.error)
              (fill g buf r) (unless_stopped-stays (fill g buf r) k')
              (λ u w' k''. settle_window-stays buf ss len r.count r.bytes r.error w' inside k''))
      ]

  pub read_loop-stays :
      (n offset : ℕ) (ss : List Segment) (done total : ℕ) (w : W)
      → Within ss
      → offset + total ≤ disk_bytes g.size
      → K w
      → K (read_loop g n offset ss done total w).1
  unfolding read_loop
  read_loop-stays zero offset ss done total w inside fits k = elim (Bool-cases (ltb done total)) [
    | inl a ↦ rw a k
    | inr a ↦ rw a k
  ]
  read_loop-stays (suc n) offset ss done total w inside fits k =
      let want = min (total - done) max_read_window in
      let next : ℕ × Bool → Run W (ℕ × Bool) = λ r.
        if r.1
        then pure (done + r.0, true)
        else read_loop g n offset (advance r.0 ss) (done + r.0) total in
      elim (Bool-cases (ltb done total)) [
        | inr a ↦ rw a k
        | inl a ↦ rw a (
            >>=-stays K (unless_stopped g) (λ u. read_window g (offset + done) ss want >>= next) w
              (unless_stopped-stays w k)
              (λ u w' k'.
                >>=-stays K (read_window g (offset + done) ss want) next w'
                  (read_window-stays (offset + done) want ss w' inside
                    (ground (arith, a, choose_window-length ss want)) (omega arith) k')
                  (λ r w'' k''. elim (Bool-cases r.1) [
                    | inl b ↦ rw b k''
                    | inr b ↦ rw b (
                        read_loop-stays n offset (advance r.0 ss) (done + r.0) total w''
                          (λ x h. inside x (advance_inside r.0 x ss h)) fits k'')
                  ])))
      ]
