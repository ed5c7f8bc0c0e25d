-- ===== src/Vhost/Request/Served.antt =====
-- What serving a chain of pkg/vhost leaves alone.
use sandboxer.Prelude.{
  ℕ, ◌+◌, ◌-◌, ◌*◌, ◌/◌, ◌%◌, ◌^◌, ◌<◌, ◌≡◌, refl, ap, ◌∙◌, Option, none, some, List, [], ◌∷◌, ◌++◌,
  true, false, ltb, leb, ◌==◌, if◌then◌else◌, ◌||◌, ◌&&◌, not, length, All, arith, inl, inr,
  Bool-cases, Option-cases,
}
use sandboxer.Prelude.LittleEndian.{le_at}
use sandboxer.Vhost.{
  plain, short_header, Run, pure, fail, ◌>>=◌, ◌>>◌, ask, World, BackendError, ended, read_only,
  compatible, broken,
}
use sandboxer.Vhost.Laws.{>>=-stays}
use sandboxer.Vhost.Blk.{
  sector_size, blk_type_in, blk_type_out, blk_type_flush, blk_type_discard, blk_status_ok,
  blk_status_io_err, blk_status_unsupp, BlkReqHeader, parse_blk_req_header,
}
use sandboxer.Vhost.Memory.{Segment}
use sandboxer.Vhost.Memory.Translate.{by_load}
use sandboxer.Vhost.Chain.{Virtq, Chain}
use sandboxer.Vhost.Request.{
  max_discard_sectors, max_int64, disk_bytes, is_negative, total_length, is_ended, is_one_byte,
  past_header, without_status, status_at, rest_of, lacks_ends, first_of, unless_stopped,
  read_payload, write_payload, gather_range, discard_range, discard_chain, perform, serve_chain,
}
use sandboxer.Vhost.Request.Windows.{in_segments, without_status_inside, status_at_inside}
use sandboxer.Vhost.Request.Safe.{
  Acts, looks, stores, writes, discards, flushes, FillsBuffer, Within, unless_stopped-stays,
  read_loop-stays,
}

module _ {W : Type 0} (g : World W) (fb : FillsBuffer g) (ws : List Segment) (K : W → Type 0)
    (acts : (w w' : W) → Acts g ws w w' → K w → K w') where
  read_payload-stays :
      (sector : ℕ) (ss : List Segment) (w : W)
      → Within g fb ws K acts ss
      → K w
      → K (read_payload g sector ss w).1
  unfolding read_payload
  read_payload-stays sector ss w inside k = elim (Option-cases (total_length 0 ss)) [
    | inl a ↦ rw (read_payload, a) k
    | inr (total, a) ↦
        elim (Bool-cases (
          ltb (max_int64 / sector_size) sector
          || is_negative g.size
          || ltb (disk_bytes g.size) (total + sector * sector_size))) [
            | inl b ↦ rw (read_payload, a, b) k
            | inr b ↦
                rw (read_payload, a, b)
                  (read_loop-stays g fb ws K acts total (sector * sector_size) ss 0 total w inside
                    (ground (arith, b)) k)
          ]
  ]

  write_payload-stays :
      (offset : ℕ) (ss : List Segment) (w : W) → K w → K (write_payload g offset ss w).1
  unfolding write_payload
  write_payload-stays offset [] w k = k
  write_payload-stays offset (s ∷ ss) w k =
      let bytes = (g.load s.at s.len w).0 in
      let w1 = (g.load s.at s.len w).1 in
      let r = g.write_at bytes offset w1 in
      let k1 : K w1 = acts w w1 (looks (by_load s.at s.len)) k in
      let k2 : K r.world = acts w1 r.world (writes bytes offset) k1 in
      let next : Option BackendError → Run W ℕ = λ o. elim o [
        | none ↦ write_payload g ((offset + r.count) % 2 ^ 64) ss
        | some read_only ↦ pure blk_status_unsupp
        | some e ↦ pure blk_status_io_err
      ] in
      let step : (o : Option BackendError) (w' : W) → K w' → K (next o w').1 = λ o w' k'.
        elim o as (λ p. K (next p w').1) [
          | none ↦ write_payload-stays ((offset + r.count) % 2 ^ 64) ss w' k'
          | some e ↦ elim e as (λ f. K (next (some f) w').1) [
            | ended ↦ k'
            | read_only ↦ k'
            | compatible ↦ k'
            | broken ↦ k'
          ]
        ] in
      elim (Bool-cases (is_ended r.error)) [
        | inl a ↦ rw a k2
        | inr a ↦ rw a (
            >>=-stays K (unless_stopped g) (λ u. next r.error) r.world
              (unless_stopped-stays g fb ws K acts r.world k2) (λ u w' k'. step r.error w' k'))
      ]

  gather_range-stays :
      (done : List ℕ) (ss : List Segment) (w : W) → K w → K (gather_range g done ss w).1
  unfolding gather_range
  gather_range-stays done [] w k = k
  gather_range-stays done (s ∷ ss) w k = elim (Bool-cases (ltb (16 - length done) s.len)) [
    | inl a ↦ rw a k
    | inr a ↦ rw a (
        gather_range-stays (done ++ (g.load s.at s.len w).0) ss (g.load s.at s.len w).1
          (acts w (g.load s.at s.len w).1 (looks (by_load s.at s.len)) k))
  ]

  discard_range-stays : (range : List ℕ) (w : W) → K w → K (discard_range g range w).1
  unfolding discard_range
  discard_range-stays range w k =
      let sector = le_at 0 8 range in
      let count = le_at 8 4 range in
      let capacity = g.size / sector_size in
      elim (Bool-cases (not (le_at 12 4 range == 0))) [
        | inl a ↦ rw a k
        | inr a ↦ elim (Bool-cases (ltb max_discard_sectors count || is_negative g.size)) [
          | inl b ↦ rw (a, b) k
          | inr b ↦ elim (Bool-cases (ltb capacity sector || ltb (capacity - sector) count)) [
            | inl c ↦ rw (a, b, c) k
            | inr c ↦
                rw (a, b, c)
                  (acts w (g.discard (sector * sector_size) (count * sector_size) w).1
                    (discards (sector * sector_size) (count * sector_size) (ground (arith, c))
                      (ground (arith, b)))
                    k)
          ]
        ]
      ]

  discard_chain-stays : (c : Chain) (w : W) → K w → K (discard_chain g c w).1
  unfolding discard_chain
  discard_chain-stays c w k =
      let next : Option (List ℕ) → Run W ℕ = λ found. elim found [
        | none ↦ pure blk_status_io_err
        | some range ↦
            if not (length range == 16) || not (is_one_byte c.write_segs)
            then pure blk_status_io_err
            else discard_range g range
      ] in
      >>=-stays K (gather_range g [] (past_header c.read_segs)) next w
        (gather_range-stays [] (past_header c.read_segs) w k)
        (λ found w' k'. elim found as (λ f. K (next f w').1) [
          | none ↦ k'
          | some range ↦
              elim (Bool-cases (not (length range == 16) || not (is_one_byte c.write_segs))) [
                | inl a ↦ rw a k'
                | inr a ↦ rw a (discard_range-stays range w' k')
              ]
        ])

  perform-stays :
      (q : Virtq) (hdr : BlkReqHeader) (c : Chain) (w : W)
      → ws ≡ c.write_segs
      → K w
      → K (perform g q hdr c w).1
  unfolding perform
  perform-stays q hdr c w same k =
      let ends : List Segment = without_status c.write_segs in
      elim (Bool-cases (hdr.type == blk_type_in)) [
        | inl a ↦ rw a (
            >>=-stays K (read_payload g hdr.sector ends)
              (λ r. pure (if r.1 then blk_status_io_err else blk_status_ok, r.0)) w
              (read_payload-stays hdr.sector ends w
                (λ x h. rw same (without_status_inside x c.write_segs h)) k)
              (λ r w' k'. k'))
        | inr a ↦ elim (Bool-cases (hdr.type == blk_type_out)) [
          | inl b ↦
              rw (a, b)
                (>>=-stays K
                  (write_payload g (hdr.sector * sector_size % 2 ^ 64) (rest_of c.read_segs))
                  (λ status. pure {A = ℕ × ℕ} (status, 0)) w
                  (write_payload-stays (hdr.sector * sector_size % 2 ^ 64) (rest_of c.read_segs) w
                    k)
                  (λ r w' k'. k'))
          | inr b ↦ elim (Bool-cases (hdr.type == blk_type_flush)) [
            | inl d ↦ rw (a, b, d) (acts w (g.flush w).1 flushes k)
            | inr d ↦
                elim (Bool-cases (
                  hdr.type == blk_type_discard
                  && q.allows_discard
                  && not g.is_read_only
                  && g.supports_discard)) [
                    | inr e ↦ rw (a, b, d, e) k
                    | inl e ↦
                        rw (a, b, d, e)
                          (>>=-stays K (discard_chain g c) (λ status. pure {A = ℕ × ℕ} (status, 0))
                            w (discard_chain-stays c w k) (λ r w' k'. k'))
                  ]
          ]
        ]
      ]

  serve_chain-stays :
      (q : Virtq) (c : Chain) (w : W)
      → ws ≡ c.write_segs
      → All (λ s. 0 < s.len) c.write_segs
      → K w
      → K (serve_chain g q c w).1
  unfolding serve_chain
  serve_chain-stays q c w same filled k =
      let s = first_of c.read_segs in
      let at = status_at c.write_segs in
      let last : BlkReqHeader → ℕ × ℕ → Run W ℕ = λ hdr done.
        ask (λ w'. (tt, g.store at (done.0 ∷ []) w'))
        >> pure (if hdr.type == blk_type_in then done.1 + 1 else 1) in
      let next : Option BlkReqHeader → Run W ℕ = λ o. elim o [
        | none ↦ fail (plain short_header)
        | some hdr ↦ perform g q hdr c >>= λ done. unless_stopped g >> last hdr done
      ] in
      elim (Bool-cases (lacks_ends c)) [
        | inl a ↦ rw a k
        | inr a ↦ elim (Bool-cases (leb 16 s.len)) [
          | inr b ↦ rw (a, b) k
          | inl b ↦
              rw (a, b)
                (>>=-stays K (ask (g.load s.at 16)) (λ bytes. next (parse_blk_req_header bytes)) w
                  (acts w (g.load s.at 16 w).1 (looks (by_load s.at 16)) k)
                  (λ bytes w1 k1. elim (parse_blk_req_header bytes) as (λ o. K (next o w1).1) [
                    | none ↦ k1
                    | some hdr ↦
                        >>=-stays K (perform g q hdr c) (λ done. unless_stopped g >> last hdr done)
                          w1 (perform-stays q hdr c w1 same k1)
                          (λ done w' k'.
                            >>=-stays K (unless_stopped g) (λ u. last hdr done) w'
                              (unless_stopped-stays g fb ws K acts w' k')
                              (λ u w'' k''.
                                acts w'' (g.store at (done.0 ∷ []) w'')
                                  (stores at (done.0 ∷ []) (inside a done.0)) k''))
                  ]))
        ]
      ]
    where
      inside :
          lacks_ends c ≡ false
          → (b i : ℕ) → i < length (b ∷ [])
          → in_segments (status_at c.write_segs + i) ws ≡ true
      inside a b i h = rw same (
          ap (λ x. in_segments x c.write_segs) {x = status_at c.write_segs + i} (omega (arith, h))
          ∙ status_at_inside c.write_segs (λ e. ground (arith, e, a)) filled)

-- A run of permitted actions.
pub data Performs {W : Type 0} (g : World W) (ws : List Segment) (w : W) : W → Type 0 where
  nothing : Performs g ws w w
  then_acts : {w' w'' : W} → Performs g ws w w' → Acts g ws w' w'' → Performs g ws w w''

-- Serving a chain, whatever its request is and whether it succeeds or not, only does what is
-- permitted: it stores into the chain's own writable slices, and reads and discards whole ranges
-- within the complete sectors of the disk.
pub serve_chain-Performs :
    {W : Type 0} (g : World W) (q : Virtq) (c : Chain) (w : W)
    → FillsBuffer g
    → All (λ s. 0 < s.len) c.write_segs
    → Performs g c.write_segs w (serve_chain g q c w).1
serve_chain-Performs g q c w fb filled =
    serve_chain-stays g fb c.write_segs (Performs g c.write_segs w) (λ w' w'' a k. then_acts k a) q
      c w refl filled nothing
