-- ===== src/Mux/Session/Trace/Retired.antt =====
-- What a session of pkg/mux still writes after Close or the end of its read loop has retired it.
use sandboxer.Prelude.{
  ℕ, ◌≡◌, refl, sym, ap, ◌∙◌, none, some, List, ◌++◌, true, false, length, take, arith, ◌⊎◌, inl,
  inr, take-length, ◌≢◌,
}
use sandboxer.Mux.Wire.{Conn}
use sandboxer.Mux.Wire.Laws.{IsWriter}
use sandboxer.Mux.Frame.{Frame, write_frame}
use sandboxer.Mux.Frame.RoundTrip.{wire}
use sandboxer.Mux.Session.{Session, close, finish_write, is_shut}
use sandboxer.Mux.Session.Barrier.{write-Effect}
use sandboxer.Mux.Session.Trace.{Moment, begins, ends, closes, retires, changes, Run, here, next}

module _ {W : Type 0} (dev : Conn W) (written : W → List ℕ) (c : IsWriter dev written) where
  -- What a retired session has written since: nothing, and no other frame is being written; or part
  -- of the frame that was being written when it was retired, and nobody writes any more.
  pub data Silent (m n : Moment W) : Type 0 where
    nothing_more :
        written n.session.conn ≡ written m.session.conn
        → (n.writing ≡ none) ⊎ (n.writing ≡ m.writing)
        → Silent m n
    last_write :
        (f : Frame) (k : ℕ)
        → m.writing ≡ some f
        → n.writing ≡ none
        → written n.session.conn ≡ written m.session.conn ++ take k (wire f)
        → Silent m n

  Silent-quiet :
      {m n : Moment W} (t : Session W)
      → written t.conn ≡ written n.session.conn
      → Silent m n
      → Silent m (record { session = t; writing = n.writing })
  Silent-quiet t same (nothing_more on who) = nothing_more (same ∙ on) who
  Silent-quiet t same (last_write f k busy over on) = last_write f k busy over (same ∙ on)

  Silent-ends :
      {m n : Moment W} (f : Frame)
      → n.writing ≡ some f
      → Silent m n
      → Silent m (record {
        session = (finish_write dev n.session (write_frame dev n.session.conn f)).1;
        writing = none;
      })
  Silent-ends f busy (last_write g k was over on) = absurd (ground (arith, busy, over))
  Silent-ends {m} {n} f busy (nothing_more on who) =
      let was : m.writing ≡ some f = ground (arith, who, busy) in
      elim (write-Effect dev written c f n.session) [
        | inl u ↦ nothing_more (u.same ∙ on) (inl refl)
        | inr (inl w) ↦ last_write f (length (wire f)) was refl (
            w.extended
            ∙ ap (λ l. l ++ wire f) on
            ∙ ap (λ l. written m.session.conn ++ l) (sym (take-length (wire f))))
        | inr (inr b) ↦
            last_write f b.part was refl (b.extended ∙ ap (λ l. l ++ take b.part (wire f)) on)
      ]

  still_retired : (f : Frame) (s : Session W) → s.retired ≡ true → is_shut f s ≢ false
  still_retired f s h e = ground (arith, h, e)

  finish-retired :
      (f : Frame) (s : Session W)
      → s.retired ≡ true
      → (finish_write dev s (write_frame dev s.conn f)).1.retired ≡ true
  finish-retired f s h = elim (write-Effect dev written c f s) [
    | inl u ↦ u.retired' ∙ h
    | inr (inl w) ↦ w.retired' ∙ h
    | inr (inr b) ↦ b.retires
  ]

  -- A retired session stays retired and writes nothing more, except that a frame whose write was
  -- under way when Close or the read loop retired it may still go out, in part or whole; no other
  -- frame is begun.
  pub retired_is_Silent :
      {m n : Moment W}
      → Run dev m n
      → m.session.retired ≡ true
      → (n.session.retired ≡ true) × Silent m n
  unfolding close
  retired_is_Silent here h = (h, nothing_more refl (inr refl))
  retired_is_Silent (next {n = x} r (begins f leg free unshut soon)) h =
      absurd (still_retired f x.session (retired_is_Silent r h).0 unshut)
  retired_is_Silent (next {n = x} r (ends f busy)) h =
      let (ret, so_far) = retired_is_Silent r h in
      (finish-retired f x.session ret, Silent-ends f busy so_far)
  retired_is_Silent (next {n = x} r closes) h =
      (refl, Silent-quiet _ (c.closes x.session.conn) (retired_is_Silent r h).1)
  retired_is_Silent (next r retires) h = (refl, Silent-quiet _ refl (retired_is_Silent r h).1)
  retired_is_Silent (next r (changes t e q _)) h =
      let (ret, so_far) = retired_is_Silent r h in (q ∙ ret, Silent-quiet t (ap written e) so_far)
