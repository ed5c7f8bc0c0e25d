-- ===== src/Vhost/Request/Counted.antt =====
-- How many bytes a request of pkg/vhost reports, and that it comes to an end.
use sandboxer.Prelude.{
  ℕ, zero, suc, ◌+◌, ◌-◌, ◌*◌, ◌/◌, ◌^◌, ◌≤◌, ◌≡◌, refl, Option, none, some, List, [], ◌∷◌, Bool,
  true, false, ltb, leb, ◌==◌, if◌then◌else◌, ◌||◌, length, take, drop, min, arith, ◌⊎◌, inl, inr,
  Bool-cases, Option-cases,
}
use sandboxer.Vhost.{
  Run, pure, ◌>>=◌, ◌>>◌, ask, World, BackendError, ended, read_only, compatible, broken,
}
use sandboxer.Vhost.Laws.{Yields, yields, fails, >>=-Yields}
use sandboxer.Vhost.Blk.{sector_size}
use sandboxer.Vhost.Memory.{Segment}
use sandboxer.Vhost.Chain.Walk.{NotStuck}
use sandboxer.Vhost.Request.{
  max_read_window, max_int64, disk_bytes, is_negative, total_length, choose_window, advance,
  is_ended, is_window_error, unless_stopped, scatter, settle_window, fill, read_window, read_loop,
  read_payload,
}
use sandboxer.Vhost.Request.Windows.{choose_window-length, lengths}

total_length-lengths :
    (n t : ℕ) (ss : List Segment) → total_length n ss ≡ some t → t ≡ n + lengths ss
unfolding total_length lengths
total_length-lengths n t [] h = ground (arith, h)
total_length-lengths n t (s ∷ ss) h = ground (arith, h, total_length-lengths (n + s.len) t ss)

-- At most `n` bytes, and all of them unless there is an error.
abbrev pub Counts : {W : Type 0} → ℕ → ℕ × Bool → W → Type 0
Counts n r w = (r.0 ≤ n) × ((r.1 ≡ true) ⊎ (r.0 ≡ n))

module _ {W : Type 0} (g : World W) where
  pub unless_stopped-Yields :
      (w : W) → Yields {A = Unit {0}} (λ u w'. Unit {0}) NotStuck (unless_stopped g w)
  unless_stopped-Yields w = elim (Bool-cases (g.stopped w).0) [
    | inl a ↦ rw a (fails (ground arith))
    | inr a ↦ rw a (yields tt)
  ]

  scatter-Yields :
      (ss : List Segment) (bytes : List ℕ) (w : W)
      → Yields {A = Unit {0}} (λ u w'. Unit {0}) NotStuck (scatter g ss bytes w)
  unfolding scatter
  scatter-Yields [] bytes w = yields tt
  scatter-Yields (s ∷ ss) bytes w = elim (Bool-cases (length bytes == 0)) [
    | inl a ↦ rw a (yields tt)
    | inr a ↦ rw a (
        >>=-Yields (unless_stopped g)
          (λ u.
            ask (λ w'. (tt, g.store s.at (take s.len bytes) w')) >> scatter g ss (drop s.len bytes))
          w (unless_stopped-Yields w)
          (λ u w' k. scatter-Yields ss (drop s.len bytes) (g.store s.at (take s.len bytes) w')))
  ]

  window_error-count :
      (n length : ℕ) (e : Option BackendError) → (is_window_error n length e ≡ true) ⊎ (n ≡ length)
  window_error-count n length none = ground arith
  window_error-count n length (some ended) = inl refl
  window_error-count n length (some read_only) = inl refl
  window_error-count n length (some compatible) = ground arith
  window_error-count n length (some broken) = inl refl

  settle_window-Counts :
      (buf : Option Segment) (ss : List Segment) (length n : ℕ) (bytes : List ℕ)
      (e : Option BackendError) (w : W)
      → Yields (Counts length) NotStuck (settle_window g buf ss length n bytes e w)
  unfolding settle_window
  settle_window-Counts buf ss length n bytes e w =
      elim (Bool-cases (leb (2 ^ 63) n || ltb length n)) [
        | inl a ↦ rw a (yields (omega arith, inl refl))
        | inr a ↦ rw a (go a buf)
      ]
    where
      go :
          (leb (2 ^ 63) n || ltb length n) ≡ false
          → (b : Option Segment)
          → Yields (Counts length) NotStuck (
              ((elim b as (λ x. Run W (Unit {0})) [
                | some s ↦ pure tt
                | none ↦ scatter g ss (take n bytes)
              ])
                  >>= λ u. pure {A = ℕ × Bool} (n, is_window_error n length e))
                w)
      go a none =
          >>=-Yields (scatter g ss (take n bytes))
            (λ u. pure {A = ℕ × Bool} (n, is_window_error n length e)) w
            (scatter-Yields ss (take n bytes) w)
            (λ u w' k. yields (ground (arith, a), window_error-count n length e))
      go a (some s) = yields (ground (arith, a), window_error-count n length e)

  read_window-Counts :
      (offset length : ℕ) (ss : List Segment) (w : W)
      → Yields (Counts (choose_window ss length).1) NotStuck (read_window g offset ss length w)
  unfolding read_window
  read_window-Counts offset length ss w =
      let (buf, len) = choose_window ss length in
      let r = g.read_at offset len w in
      elim (Bool-cases (is_ended r.error)) [
        | inl a ↦ rw a (fails (ground arith))
        | inr a ↦ rw a (
            >>=-Yields (unless_stopped g) (λ u. settle_window g buf ss len r.count r.bytes r.error)
              (fill g buf r) (unless_stopped-Yields (fill g buf r))
              (λ u w' k. settle_window-Counts buf ss len r.count r.bytes r.error w'))
      ]

  read_loop-Counts :
      (n offset : ℕ) (ss : List Segment) (done total : ℕ) (w : W)
      → total ≤ done + n
      → done ≤ total
      → Yields (Counts total) NotStuck (read_loop g n offset ss done total w)
  unfolding read_loop
  read_loop-Counts zero offset ss done total w enough below = elim (Bool-cases (ltb done total)) [
    | inl a ↦ absurd (ground (arith, a, enough))
    | inr a ↦ rw a (yields (below, inr (ground (arith, a, below))))
  ]
  read_loop-Counts (suc n) offset ss done total w enough below =
      let want = min (total - done) max_read_window in
      let next : ℕ × Bool → Run W (ℕ × Bool) = λ r.
        if r.1
        then pure (done + r.0, true)
        else read_loop g n offset (advance r.0 ss) (done + r.0) total in
      elim (Bool-cases (ltb done total)) [
        | inr a ↦ rw a (yields (below, inr (ground (arith, a, below))))
        | inl a ↦ rw a (
            >>=-Yields (unless_stopped g) (λ u. read_window g (offset + done) ss want >>= next) w
              (unless_stopped-Yields w)
              (λ u w' k.
                >>=-Yields (read_window g (offset + done) ss want) next w'
                  (read_window-Counts (offset + done) want ss w')
                  (λ r w'' h. elim (Bool-cases r.1) [
                    | inl b ↦
                        rw b
                          (yields (ground (arith, a, h.0, choose_window-length ss want), inl refl))
                    | inr b ↦ rw b (
                        read_loop-Counts n offset (advance r.0 ss) (done + r.0) total w''
                          (ground (arith, a, b, h, enough, choose_window-length ss want))
                          (ground (arith, a, h.0, choose_window-length ss want)))
                  ])))
      ]

  -- A read comes to an end. It reports no more bytes than its slices hold, and all of them unless it
  -- reports an error.
  pub read_payload-Counts :
      (sector : ℕ) (ss : List Segment) (w : W)
      → Yields (Counts (lengths ss)) NotStuck (read_payload g sector ss w)
  unfolding read_payload
  read_payload-Counts sector ss w = elim (Option-cases (total_length 0 ss)) [
    | inl a ↦ rw (read_payload, a) (yields (omega arith, inl refl))
    | inr (total, a) ↦
        elim (Bool-cases (
          ltb (max_int64 / sector_size) sector
          || is_negative g.size
          || ltb (disk_bytes g.size) (total + sector * sector_size))) [
            | inl b ↦ rw (read_payload, a, b) (yields (omega arith, inl refl))
            | inr b ↦
                let all : lengths ss ≡ total = omega (arith, total_length-lengths 0 total ss a) in
                rw (read_payload, a, b, all)
                  (read_loop-Counts total (sector * sector_size) ss 0 total w (omega arith)
                    (omega arith))
          ]
  ]
