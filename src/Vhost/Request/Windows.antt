-- ===== src/Vhost/Request/Windows.antt =====
-- The windows of pkg/vhost/read.go: where in guest memory they lie.
use sandboxer.Prelude.{
  ℕ, ◌+◌, ◌-◌, ◌≤◌, ◌<◌, ◌≡◌, ◌≢◌, refl, All, Option, none, some, List, [], ◌∷◌, Bool, true, false,
  ltb, leb, if◌then◌else◌, ◌||◌, ◌&&◌, length, arith, ◌⊎◌, inl, inr, lt_or_le,
}
use sandboxer.Vhost.Memory.{Segment}
use sandboxer.Vhost.Request.{
  min_direct_span, follows, contiguous_window, choose_window, advance, without_status, status_at,
}

-- Position `x` of the slab lies in one of the slices.
unfoldable pub in_segments : ℕ → List Segment → Bool
in_segments x [] = false
in_segments x (s ∷ ss) = (leb s.at x && ltb x (s.at + s.len)) || in_segments x ss

unfoldable pub lengths : List Segment → ℕ
lengths [] = 0
lengths (s ∷ ss) = s.len + lengths ss

follows_inside :
    (at pos length x : ℕ) (ss : List Segment)
    → follows at pos length ss ≡ true
    → at + pos ≤ x
    → x < at + length
    → in_segments x ss ≡ true
unfolding follows in_segments
follows_inside at pos length x [] f low high = cc
follows_inside at pos length x (s ∷ ss) f low high = elim (lt_or_le x (s.at + s.len)) [
  | inl here ↦ ground (arith, f, here)
  | inr later ↦ ground (arith, f, later, follows_inside at (pos + s.len) length x ss)
]

contiguous_window_inside :
    (ss : List Segment) (length x : ℕ) (buf : Segment)
    → contiguous_window ss length ≡ some buf
    → buf.at ≤ x
    → x < buf.at + length
    → in_segments x ss ≡ true
unfolding contiguous_window in_segments
contiguous_window_inside [] length x buf h low high = cc
contiguous_window_inside (s ∷ ss) length x buf h low high = elim (lt_or_le x (s.at + s.len)) [
  | inl here ↦ ground (arith, h)
  | inr later ↦ ground (arith, h, follows_inside s.at s.len length x ss)
]

-- A direct window fills the slices from the first on, and no other memory.
pub choose_window_inside :
    (ss : List Segment) (length x : ℕ) (buf : Segment)
    → (choose_window ss length).0 ≡ some buf
    → buf.at ≤ x
    → x < buf.at + (choose_window ss length).1
    → in_segments x ss ≡ true
unfolding choose_window in_segments
choose_window_inside [] length x buf h low high = cc
choose_window_inside (s ∷ ss) length x buf h low high =
    go (contiguous_window (s ∷ ss) length) refl h high
  where
    go :
        (o : Option Segment)
        → contiguous_window (s ∷ ss) length ≡ o
        → (elim o as (λ k. Option Segment × ℕ) [
          | some b ↦ (some b, length)
          | none ↦
              if leb min_direct_span s.len && leb min_direct_span (length - s.len)
              then (some (record { at = s.at; len = s.len; cap = s.len }), s.len)
              else (none, length)
        ]).0
          ≡ some buf
        → x
          < buf.at
            + (elim o as (λ k. Option Segment × ℕ) [
              | some b ↦ (some b, length)
              | none ↦
                  if leb min_direct_span s.len && leb min_direct_span (length - s.len)
                  then (some (record { at = s.at; len = s.len; cap = s.len }), s.len)
                  else (none, length)
            ]).1
        → in_segments x (s ∷ ss) ≡ true
    go (some b) e h' high' =
        contiguous_window_inside (s ∷ ss) length x b e (ground (arith, h', low))
          (ground (arith, h', high'))
    go none e h' high' = ground (arith, h', high', low)

-- A window is as long as was asked, or stops at the end of a slice.
pub choose_window-length :
    (ss : List Segment) (length : ℕ)
    → ((choose_window ss length).1 ≤ length) × ((0 < (choose_window ss length).1) ⊎ (length ≡ 0))
unfolding choose_window
choose_window-length [] length = ground arith
choose_window-length (s ∷ ss) length = ground arith

-- Past some bytes of the slices, the rest lies in them.
pub advance_inside :
    (n x : ℕ) (ss : List Segment) → in_segments x (advance n ss) ≡ true → in_segments x ss ≡ true
unfolding advance in_segments
advance_inside n x [] h = h
advance_inside n x (s ∷ ss) h = ground (arith, h, advance_inside (n - s.len) x ss)

pub without_status_inside :
    (x : ℕ) (ss : List Segment) → in_segments x (without_status ss) ≡ true → in_segments x ss ≡ true
unfolding in_segments
without_status_inside x [] h = h
without_status_inside x (s ∷ []) h = ground (arith, h)
without_status_inside x (s ∷ t ∷ ss) h = ground (arith, h, without_status_inside x (t ∷ ss))

-- The status byte is in the last slice.
pub status_at_inside :
    (ss : List Segment) → ss ≢ [] → All (λ s. 0 < s.len) ss → in_segments (status_at ss) ss ≡ true
unfolding in_segments
status_at_inside [] k h = absurd (k refl)
status_at_inside (s ∷ []) k h = ground (arith, h)
status_at_inside (s ∷ t ∷ ss) k h = ground (arith, status_at_inside (t ∷ ss) (λ e. cc) h.1)
