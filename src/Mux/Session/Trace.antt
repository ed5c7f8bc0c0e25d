-- ===== src/Mux/Session/Trace.antt =====
-- What a session of pkg/mux puts on the wire over a whole run, its goroutines interleaved anyhow.
pub mod Retired
use sandboxer.Prelude.{
  ℕ, ◌≡◌, refl, sym, ap, ◌∙◌, Option, none, some, List, [], ◌∷◌, ◌++◌, ◌||◌, ◌&&◌, not, Bool, true,
  false, length, take, drop, arith, All, ◌⊎◌, inl, inr, append-nil, append_assoc, drop-append_le,
  take-length, Bool-cases, ◌≢◌,
}
use sandboxer.Mux.Wire.{Conn, Source}
use sandboxer.Mux.Wire.Laws.{IsWriter}
use sandboxer.Mux.Frame.{Frame, IsFrame, frame, read_frame, write_frame}
use sandboxer.Mux.Frame.RoundTrip.{wire, Fits, read_frame-wire}
use sandboxer.Mux.Session.{Session, close, finish_write, is_shut, is_late, marked, send}
use sandboxer.Mux.Session.Barrier.{is_ack, is_close, Unwritten, Written, Broken, write-Effect}

-- A session, and the frame that the holder of wmu is writing, if any. Close and the read loop retire
-- the session without wmu, so also while a write is under way.
pub record Moment (W : Type 0) : Type 0 where
  pub session : Session W
  pub writing : Option Frame

abbrev pub idle : {W : Type 0} → Session W → Moment W
idle s = record { session = s; writing = none }

-- One step of a goroutine: writeFrame up to its write, with any frame; the write and what follows it
-- under wmu; Close; the retirement at the end of the read loop; or an assignment that leaves the
-- connection and the two flags of the writer barrier alone.
pub data Step {W : Type 0} (dev : Conn W) (m : Moment W) : Moment W → Type 0 where
  begins :
      (f : Frame)
      → IsFrame f
      → m.writing ≡ none
      → is_shut f m.session ≡ false
      → is_late f m.session ≡ false
      → Step dev m (record { session = marked f m.session; writing = some f })
  ends :
      (f : Frame)
      → m.writing ≡ some f
      → Step dev m (record {
        session = (finish_write dev m.session (write_frame dev m.session.conn f)).1;
        writing = none;
      })
  closes : Step dev m (record { session = close dev m.session; writing = m.writing })
  retires :
      Step dev m (record { session = record m.session { retired = true }; writing = m.writing })
  changes :
      (t : Session W)
      → t.conn ≡ m.session.conn
      → t.retired ≡ m.session.retired
      → t.sealed ≡ m.session.sealed
      → Step dev m (record { session = t; writing = m.writing })

pub data Run {W : Type 0} (dev : Conn W) (m : Moment W) : Moment W → Type 0 where
  here : Run dev m m
  next : {n o : Moment W} → Run dev m n → Step dev n o → Run dev m o

-- A run from one state in which nobody writes to another.
abbrev pub Reach : {W : Type 0} → Conn W → Session W → Session W → Type 0
Reach dev s t = Run dev (idle s) (idle t)

-- A call of writeFrame that nothing interrupts.
pub send-Reach :
    {W : Type 0} (dev : Conn W) {m : Moment W} (s : Session W) (f : Frame)
    → IsFrame f
    → Run dev m (idle s)
    → Run dev m (idle (send dev f s).1)
unfolding send
send-Reach dev s f leg r = elim (Bool-cases (is_shut f s)) [
  | inl a ↦ rw a r
  | inr a ↦ elim (Bool-cases (is_late f s)) [
    | inl b ↦ rw (a, b) r
    | inr b ↦
        let through = next (next r (begins f leg refl a b)) (ends f refl) in
        elim (Bool-cases (is_close f)) [
          | inl d ↦ let t = rw d at through in rw (a, b, d) t
          | inr d ↦ let t = rw d at through in rw (a, b, d) t
        ]
  ]
]

unfoldable pub wires : List Frame → List ℕ
wires [] = []
wires (f ∷ fs) = wire f ++ wires fs

-- After MUX_CLOSE or its ACK only ACKs follow; the flag says that one has gone out before.
unfoldable pub barrier_ok : Bool → List Frame → Bool
barrier_ok shut [] = true
barrier_ok shut (f ∷ fs) = (not shut || is_ack f) && barrier_ok (shut || is_close f) fs

unfoldable pub shuts : Bool → List Frame → Bool
shuts shut [] = shut
shuts shut (f ∷ fs) = shuts (shut || is_close f) fs

wires-append : (fs gs : List Frame) → wires (fs ++ gs) ≡ wires fs ++ wires gs
unfolding wires
wires-append [] gs = refl
wires-append (f ∷ fs) gs =
    rw (wires-append fs gs) (sym (append_assoc (wire f) (wires fs) (wires gs)))

barrier_ok-snoc :
    (b : Bool) (fs : List Frame) (f : Frame)
    → barrier_ok b fs ≡ true
    → (shuts b fs ≡ false) ⊎ (is_ack f ≡ true)
    → barrier_ok b (fs ++ (f ∷ [])) ≡ true
unfolding barrier_ok shuts
barrier_ok-snoc b [] f h a = ground arith
barrier_ok-snoc b (g ∷ fs) f h a = ground (arith, barrier_ok-snoc (b || is_close g) fs f)

shuts-snoc :
    (b : Bool) (fs : List Frame) (f : Frame) → shuts b (fs ++ (f ∷ [])) ≡ shuts b fs || is_close f
unfolding shuts
shuts-snoc b [] f = refl
shuts-snoc b (g ∷ fs) f = shuts-snoc (b || is_close g) fs f

All-snoc {ℓ κ} :
    {A : Type ℓ} (P : A → Type κ) (xs : List A) (x : A) → All P xs → P x → All P (xs ++ (x ∷ []))
All-snoc P [] x h p = (p, tt)
All-snoc P (y ∷ xs) x h p = (h.0, All-snoc P xs x h.1 p)

-- A part of one frame, at most all of it.
abbrev pub PartOfFrame : List ℕ → Type 0
PartOfFrame tail = (f : Frame) × Fits f × (k : ℕ) × (tail ≡ take k (wire f))

-- What has been written since `base`: whole frames in an order that keeps the barrier, then the
-- part of a frame at which the session was retired, if any, after which nobody writes. A frame that
-- is being written keeps the barrier too.
pub record Framed {W : Type 0} (written : W → List ℕ) (base : List ℕ) (m : Moment W) : Type 0 where
  pub frames : List Frame
  pub tail : List ℕ
  pub fit : All Fits frames
  pub on_wire : written m.session.conn ≡ base ++ (wires frames ++ tail)
  pub boundary : (tail ≡ []) ⊎ ((m.session.retired ≡ true) × (m.writing ≡ none) × PartOfFrame tail)
  pub barrier : barrier_ok false frames ≡ true
  pub unsealed : (shuts false frames ≡ false) ⊎ (m.session.sealed ≡ true)
  pub in_flight :
      (f : Frame)
      → m.writing ≡ some f
      → IsFrame f
        × ((shuts false frames ≡ false) ⊎ (is_ack f ≡ true))
        × ((is_close f ≡ false) ⊎ (m.session.sealed ≡ true))

module _ {W : Type 0} (written : W → List ℕ) (base : List ℕ) where
  -- A session that is not retired, or in which a frame is being written, stands at a frame boundary.
  at_boundary :
      (m : Moment W) (v : Framed written base m)
      → v.tail ≡ []
      → written m.session.conn ≡ base ++ wires v.frames
  at_boundary m v nil =
      v.on_wire
      ∙ ap (λ l. base ++ (wires v.frames ++ l)) nil
      ∙ ap (λ l. base ++ l) (append-nil (wires v.frames))

  begins-Framed :
      (f : Frame) (m : Moment W)
      → IsFrame f
      → is_shut f m.session ≡ false
      → Framed written base m
      → Framed written base (record { session = marked f m.session; writing = some f })
  begins-Framed f m leg unshut v =
      let nil : v.tail ≡ [] = ground (arith, v.boundary, unshut) in
      let same : (marked f m.session).conn ≡ m.session.conn = ground arith in
      record {
        frames = v.frames;
        tail = [];
        fit = v.fit;
        on_wire = ap written same ∙ v.on_wire ∙ ap (λ l. base ++ (wires v.frames ++ l)) nil;
        boundary = inl refl;
        barrier = v.barrier;
        unsealed = ground (arith, v.unsealed);
        in_flight = λ h e. ground (arith, e, leg, unshut, v.unsealed);
      }

  Unwritten-Framed :
      (m : Moment W) (t : Session W) (v : Framed written base m)
      → v.tail ≡ []
      → Unwritten written m.session t
      → Framed written base (idle t)
  Unwritten-Framed m t v nil u = record {
    frames = v.frames;
    tail = [];
    fit = v.fit;
    on_wire = u.same ∙ v.on_wire ∙ ap (λ l. base ++ (wires v.frames ++ l)) nil;
    boundary = inl refl;
    barrier = v.barrier;
    unsealed = ground (arith, v.unsealed, u);
    in_flight = λ f e. absurd (ground (arith, e));
  }

  Written-Framed :
      (f : Frame) (m : Moment W) (t : Session W) (v : Framed written base m)
      → m.writing ≡ some f
      → v.tail ≡ []
      → Written written f m.session t
      → Framed written base (idle t)
  unfolding wires
  Written-Framed f m t v busy nil w =
      let (leg, allowed, seals) = v.in_flight f busy in
      record {
        frames = v.frames ++ (f ∷ []);
        tail = [];
        fit = All-snoc Fits v.frames f v.fit (record { legal = leg; short = w.short });
        on_wire =
            w.extended
            ∙ rw (at_boundary m v nil, wires-append v.frames (f ∷ []))
                (ground (
                  arith,
                  append_assoc base (wires v.frames) (wire f),
                  append-nil (wires v.frames ++ wire f),
                  append-nil (wire f),
                ));
        boundary = inl refl;
        barrier = barrier_ok-snoc false v.frames f v.barrier allowed;
        unsealed = ground (arith, shuts-snoc false v.frames f, w, v.unsealed, seals);
        in_flight = λ g e. absurd (ground (arith, e));
      }

  Broken-Framed :
      (f : Frame) (m : Moment W) (t : Session W) (v : Framed written base m)
      → m.writing ≡ some f
      → v.tail ≡ []
      → Broken written f m.session t
      → Framed written base (idle t)
  Broken-Framed f m t v busy nil b =
      let (leg, _, _) = v.in_flight f busy in
      record {
        frames = v.frames;
        tail = take b.part (wire f);
        fit = v.fit;
        on_wire =
            b.extended
            ∙ rw (at_boundary m v nil) (append_assoc base (wires v.frames) (take b.part (wire f)));
        boundary =
            inr (b.retires, refl, (f, record { legal = leg; short = b.short }, b.part, refl));
        barrier = v.barrier;
        unsealed = ground (arith, b, v.unsealed);
        in_flight = λ g e. absurd (ground (arith, e));
      }

  -- A step that leaves the wire alone and does not take the retirement back.
  quiet-Framed :
      (m : Moment W) (t : Session W)
      → written t.conn ≡ written m.session.conn
      → (t.retired ≡ true) ⊎ (t.retired ≡ m.session.retired)
      → t.sealed ≡ m.session.sealed
      → Framed written base m
      → Framed written base (record { session = t; writing = m.writing })
  quiet-Framed m t same ret seal v = record {
    frames = v.frames;
    tail = v.tail;
    fit = v.fit;
    on_wire = same ∙ v.on_wire;
    boundary = elim v.boundary [
      | inl nil ↦ inl nil
      | inr (r, idles, part) ↦ inr (ground (arith, r, ret), idles, part)
    ];
    barrier = v.barrier;
    unsealed = ground (arith, v.unsealed, seal);
    in_flight = λ f e.
        let (leg, allowed, seals) = v.in_flight f e in (leg, allowed, ground (arith, seals, seal));
  }

module _ {W : Type 0} (dev : Conn W) (written : W → List ℕ) (c : IsWriter dev written) where
  Step-Framed :
      (base : List ℕ) {m n : Moment W}
      → Step dev m n
      → Framed written base m
      → Framed written base n
  unfolding close
  Step-Framed base {m} (begins f leg free unshut soon) v =
      begins-Framed written base f m leg unshut v
  Step-Framed base {m} (ends f busy) v =
      let nil : v.tail ≡ [] = ground (arith, v.boundary, busy) in
      elim (write-Effect dev written c f m.session) [
        | inl u ↦ Unwritten-Framed written base m _ v nil u
        | inr (inl w) ↦ Written-Framed written base f m _ v busy nil w
        | inr (inr b) ↦ Broken-Framed written base f m _ v busy nil b
      ]
  Step-Framed base {m} closes v =
      quiet-Framed written base m _ (c.closes m.session.conn) (inl refl) refl v
  Step-Framed base {m} retires v = quiet-Framed written base m _ refl (inl refl) refl v
  Step-Framed base {m} (changes t e r q) v =
      quiet-Framed written base m t (ap written e) (inr r) q v

  Run-Framed :
      (base : List ℕ) {m n : Moment W} → Run dev m n → Framed written base m → Framed written base n
  Run-Framed base here v = v
  Run-Framed base (next r st) v = Step-Framed base st (Run-Framed base r v)

  start-Framed : (s : Session W) → Framed written (written s.conn) (idle s)
  unfolding wires shuts barrier_ok
  start-Framed s = record {
    frames = [];
    tail = [];
    fit = tt;
    on_wire = sym (append-nil _);
    boundary = inl refl;
    barrier = refl;
    unsealed = inl refl;
    in_flight = λ f e. absurd (ground (arith, e));
  }

  -- Over a connection that keeps the contract of io.Writer, and however the goroutines of a
  -- session interleave, what it has put on the wire is a sequence of whole frames, in which
  -- nothing but ACKs follows a MUX_CLOSE or an ACK; the only exception is a part of one frame at
  -- the very end, and then the session is retired and nobody writes.
  pub wire_is_framed :
      {s : Session W} {m : Moment W}
      → Run dev (idle s) m
      → (frames : List Frame) × (tail : List ℕ) × (written m.session.conn
          ≡ written s.conn ++ (wires frames ++ tail))
        × All Fits frames
        × (barrier_ok false frames ≡ true)
        × ((tail ≡ []) ⊎ ((m.session.retired ≡ true) × (m.writing ≡ none) × PartOfFrame tail))
  wire_is_framed {s} r =
      let v = Run-Framed (written s.conn) r (start-Framed s) in
      (v.frames, v.tail, v.on_wire, v.fit, v.barrier, v.boundary)

-- The peer's side: the frames that one ReadFrame after another takes off a connection.
pub data ReadsAs : Source → List Frame → Source → Type 0 where
  stop : (s : Source) → ReadsAs s [] s
  more :
      {s t u : Source} {fs : List Frame} (f : Frame)
      → read_frame s ≡ frame f t
      → ReadsAs t fs u
      → ReadsAs s (f ∷ fs) u

-- A peer that is sent frames that fit reads exactly these frames, in order, and is left with
-- what follows them.
pub wires-ReadsAs :
    (frames : List Frame) (tail : List ℕ) (s : Source)
    → All Fits frames
    → s.bytes ≡ wires frames ++ tail
    → ReadsAs s frames (record s { bytes = tail })
unfolding wires
wires-ReadsAs [] tail s h e = let e' : s.bytes ≡ tail = e in rw (← e') (stop s)
wires-ReadsAs (f ∷ fs) tail s h e =
    more f (read_frame-wire f (wires fs ++ tail) s h.0 (e ∙ append_assoc (wire f) (wires fs) tail))
      (wires-ReadsAs fs tail _ h.1 refl)

-- The peer of a session, which has read all that came before, reads a sequence of frames in
-- which nothing but ACKs follows a MUX_CLOSE or an ACK. It is then left with nothing, or with a
-- part of one frame; then the session is retired and nobody writes.
pub peer_reads_frames :
    {W : Type 0} (dev : Conn W) (written : W → List ℕ) (c : IsWriter dev written) {s : Session W}
    {m : Moment W} (src : Source)
    → Run dev (idle s) m
    → src.bytes ≡ drop (length (written s.conn)) (written m.session.conn)
    → (frames : List Frame) × (tail : List ℕ) × ReadsAs src frames (record src { bytes = tail })
      × (barrier_ok false frames ≡ true)
      × ((tail ≡ []) ⊎ ((m.session.retired ≡ true) × (m.writing ≡ none) × PartOfFrame tail))
peer_reads_frames dev written c {s} src r e =
    let (frames, tail, on, fit, ok, end) = wire_is_framed dev written c r in
    (
      frames,
      tail,
      wires-ReadsAs frames tail src fit
          (e ∙ rw on (drop-append_le (length (written s.conn)) (written s.conn) _ refl)),
      ok,
      end,
    )
