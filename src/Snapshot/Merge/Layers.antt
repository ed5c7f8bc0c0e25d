-- ===== src/Snapshot/Merge/Layers.antt =====
-- readFrom of pkg/snapshot/merge.go over a layer that keeps the contract of io.ReadSeeker.
use sandboxer.Prelude.{
  ℕ, zero, suc, ◌+◌, ◌-◌, ◌≤◌, ◌<◌, ◌≡◌, ◌≢◌, refl, ◌∙◌, ap, Option, none, some, List, [], ◌∷◌,
  ◌++◌, false, ltb, if◌then◌else◌, length, get_or, arith, inl, inr, Bool-cases, length-append,
  lt_or_le,
}
use sandboxer.Snapshot.Merge.{
  Layer, Cursor, End, stuck, failure, advance, after_layer_read, fill_loop, after_seek, read_from,
  ReadError, eof, unexpected_eof,
}

-- What a layer keeps to: it delivers the bytes of its content at the place where it stands, at most
-- as many as there is room for, and at least one where it returns no error.
pub record IsLayer {W : Type 0} (dev : Layer W) (content : W → ℕ → ℕ) (at : W → ℕ) : Type 0 where
  pub seek_content : (x : ℕ) (w : W) → content (dev.seek x w).1 ≡ content w
  pub seek_at : (x : ℕ) (w : W) → (dev.seek x w).0 ≡ none → at (dev.seek x w).1 ≡ x
  pub read_content : (n : ℕ) (w : W) → content (dev.read n w).layer ≡ content w
  pub read_at : (n : ℕ) (w : W) → at (dev.read n w).layer ≡ at w + length (dev.read n w).bytes
  pub read_fits : (n : ℕ) (w : W) → length (dev.read n w).bytes ≤ n
  pub read_bytes :
      (n k : ℕ) (w : W)
      → k < length (dev.read n w).bytes
      → get_or (dev.read n w).bytes k 0 ≡ content w (at w + k)
  pub progress :
      (n : ℕ) (w : W) → 0 < n → (dev.read n w).error ≡ none → 0 < length (dev.read n w).bytes

-- The bytes are those of an image from `x` on.
abbrev pub Shows : (ℕ → ℕ) → ℕ → List ℕ → Type 0
Shows image x bytes = (k : ℕ) → k < length bytes → get_or bytes k 0 ≡ image (x + k)

get_or-append :
    (xs ys : List ℕ) (k : ℕ)
    → get_or (xs ++ ys) k 0
      ≡ (if ltb k (length xs) then get_or xs k 0 else get_or ys (k - length xs) 0)
get_or-append [] ys k = ground arith
get_or-append (x ∷ xs) ys zero = ground arith
get_or-append (x ∷ xs) ys (suc k) = ground (arith, get_or-append xs ys k)

Shows-append :
    (image : ℕ → ℕ) (x : ℕ) (xs ys : List ℕ)
    → Shows image x xs
    → Shows image (x + length xs) ys
    → Shows image x (xs ++ ys)
Shows-append image x xs ys p q k h = elim (lt_or_le k (length xs)) [
  | inl low ↦ ground (arith, get_or-append xs ys k, p k low)
  | inr high ↦
      let e : x + length xs + (k - length xs) ≡ x + k = omega arith in
      let small : k - length xs < length ys = omega (arith, length-append xs ys) in
      get_or-append xs ys k ∙ (ground (arith) ∙ (q (k - length xs) small ∙ ap image e))
]

module _ {W : Type 0} (dev : Layer W) (content : W → ℕ → ℕ) (at : W → ℕ)
    (ok : IsLayer dev content at) where
  -- A cursor part of the way through `want` bytes of an image from `x` on.
  pub record Reading (image : ℕ → ℕ) (x want : ℕ) (c : Cursor W) : Type 0 where
    pub shows : Shows image x c.got
    pub fits : length c.got ≤ want
    pub place : c.position ≡ x + length c.got
    pub same : content c.layer ≡ image

  abbrev pub Filled : (ℕ → ℕ) → ℕ → ℕ → End × Cursor W → Type 0
  Filled image x want r = Reading image x want r.1 × (r.0 ≢ stuck)

  after_read-Filled :
      (image : ℕ → ℕ) (x want : ℕ) (c : Cursor W) (e : Option ReadError)
      (again : Cursor W → End × Cursor W)
      → Reading image x want c
      → (e ≡ none → Filled image x want (again c))
      → Filled image x want (after_layer_read dev c e again)
  unfolding after_layer_read
  after_read-Filled image x want c none again r h = h refl
  after_read-Filled image x want c (some unexpected_eof) again r h = (r, λ e. cc)
  after_read-Filled image x want c (some eof) again r h = elim (Bool-cases (ltb 0 (length c.got))) [
    | inl b ↦ rw b (r, λ e. cc)
    | inr b ↦ rw b (r, λ e. cc)
  ]
  after_read-Filled image x want c (some (failure n)) again r h = (r, λ e. cc)

  advance-Reading :
      (image : ℕ → ℕ) (x want : ℕ) (c : Cursor W)
      → Reading image x want c
      → at c.layer ≡ x + length c.got
      → Reading image x want (advance dev c (dev.read (want - length c.got) c.layer))
  advance-Reading image x want c r here =
      let n = want - length c.got in
      let reply = dev.read n c.layer in
      let grown = length-append c.got reply.bytes in
      record {
        shows =
            Shows-append image x c.got reply.bytes r.shows
              (λ k h. ok.read_bytes n k c.layer h ∙ (rw (r.same) (ap image (omega (arith, here)))));
        fits = omega (arith, grown, ok.read_fits n c.layer, r.fits);
        place = omega (arith, grown, r.place);
        same = ok.read_content n c.layer ∙ r.same;
      }

  fill_loop-Filled :
      (n want x : ℕ) (image : ℕ → ℕ) (c : Cursor W)
      → Reading image x want c
      → at c.layer ≡ x + length c.got
      → want ≤ length c.got + n
      → Filled image x want (fill_loop dev n want c)
  unfolding fill_loop
  fill_loop-Filled zero want x image c r here enough =
      let full : ltb (length c.got) want ≡ false = ground arith in rw full (r, λ e. cc)
  fill_loop-Filled (suc n) want x image c r here enough =
      elim (Bool-cases (ltb (length c.got) want)) [
        | inr full ↦ rw full (r, λ e. cc)
        | inl more ↦
            let room = want - length c.got in
            let reply = dev.read room c.layer in
            let c' = advance dev c reply in
            let grown = length-append c.got reply.bytes in
            let r' = advance-Reading image x want c r here in
            let small : length c.got < want = ground arith in
            rw more (
              after_read-Filled image x want c' reply.error (λ d. fill_loop dev n want d) r'
                (λ none_e.
                  fill_loop-Filled n want x image c' r'
                    (ok.read_at room c.layer ∙ omega (arith, here, grown))
                    (omega (arith, grown, ok.progress room c.layer (omega (arith, small)) none_e))))
      ]

  pub read_from-Filled : (want x : ℕ) (w : W) → Filled (content w) x want (read_from dev want x w)
  unfolding read_from after_seek
  read_from-Filled want x w =
      go (dev.seek x w).0 (dev.seek x w).1 refl (ok.seek_content x w) (ok.seek_at x w)
    where
      go :
          (e : Option ℕ) (w' : W)
          → dev.seek x w ≡ (e, w')
          → content w' ≡ content w
          → (e ≡ none → at w' ≡ x)
          → Filled (content w) x want (after_seek dev want x (e, w'))
      go (some e) w' s same h = (
        record {
          shows = λ k low. absurd (omega arith);
          fits = omega arith;
          place = omega arith;
          same = same;
        },
        λ q. cc,
      )
      go none w' s same h =
          fill_loop-Filled want want x (content w) (record { layer = w'; position = x; got = [] })
            (record {
              shows = λ k low. absurd (omega arith);
              fits = omega arith;
              place = omega arith;
              same = same;
            })
            (h refl ∙ omega arith) (omega arith)
