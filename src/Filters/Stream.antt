-- ===== src/Filters/Stream.antt =====
-- What follows for a recognizer whose `write` does what the scanner says: the calls that a sequence
-- of writes makes do not depend on how the stream is cut into buffers, and no byte of it is lost.
use uav_router.Base.{
  ℕ, ◌≡◌, refl, sym, ap, ◌∙◌, Option, none, some, List, [], ◌∷◌, ◌++◌, map, append-nil,
  append_assoc, Bytes, length,
}
use mathlib.Core.Path.{subst}
use uav_router.Filters.Source.{AreBytes}
use uav_router.Filters.Scan.{
  more, Event, packet as packet_event, Format, Scans, wait, bytes_of, Scans-bytes_of,
  Scans-AllPackets, AllPackets, AllOf, concat, Scans-append, Scans-unique, Scans-concat,
  bytes_of-append, AllPackets-append,
}
use uav_router.Filters.Calls.{events_of}
use uav_router.Filters.Loop.{Shape}

-- The buffers hold bytes.
abbrev pub AreBuffers : List Bytes → Type 0
AreBuffers [] = Unit {0}
AreBuffers (b ∷ bs) = AreBytes b × AreBuffers bs

-- From `m` to `m'` the recognizer has read `buf`: it has made the calls that the scanner says of
-- the bytes that waited and those of `buf`, and what the scanner leaves waits.
pub record Written {M : Type 0} (F : Format) (S : Shape M) (m : M) (buf : Bytes) (m' : M)
    : Type 0 where
  pub valid : S.IsValid m'
  pub events : List Event
  pub calls_are : events_of (S.calls m') ≡ events_of (S.calls m) ++ events
  pub scans : Scans F (S.pending m ++ buf) events (S.pending m')

-- The router's calls of `write` with one buffer after the other.
unfoldable pub write_all : {M : Type 0} → (M → Bytes → Option (M × ℕ)) → M → List Bytes → Option M
write_all write m [] = some m
write_all write m (b ∷ bs) = elim (write m b) [ none ↦ none | some (m', n) ↦ write_all write m' bs ]

module _ {M : Type 0} (F : Format) (S : Shape M) (write : M → Bytes → Option (M × ℕ))
    (undecided : (m : M) → S.IsValid m → F.classify (S.pending m) ≡ more)
    (write_ok : (m : M) (buf : Bytes)
      → S.IsValid m
      → AreBytes buf
      → (m' : M) × (write m buf ≡ some (m', length buf)) × Written F S m buf m') where
  Written-nil : (m : M) → S.IsValid m → Written F S m [] m
  Written-nil m v = record {
    valid = v;
    events = [];
    calls_are = sym (append-nil (events_of (S.calls m)));
    scans = rw append-nil (wait (undecided m v));
  }

  Written-append :
      {m m' m'' : M} (b : Bytes) (later : Bytes)
      → Written F S m b m'
      → Written F S m' later m''
      → Written F S m (b ++ later) m''
  Written-append {m} {m'} {m''} b later w w' = record {
    valid = w'.valid;
    events = w.events ++ w'.events;
    calls_are =
        w'.calls_are
        ∙ ap (λ t. t ++ w'.events) w.calls_are
        ∙ append_assoc (events_of (S.calls m)) w.events w'.events;
    scans =
        subst (λ t. Scans F t (w.events ++ w'.events) (S.pending m''))
          (append_assoc (S.pending m) b later) (Scans-append later w.scans w'.scans);
  }

  -- Every sequence of writes returns, and does what the scanner says of the whole stream.
  pub write_all-Written :
      (bufs : List Bytes) (m : M)
      → S.IsValid m
      → AreBuffers bufs
      → (m' : M) × (write_all write m bufs ≡ some m') × Written F S m (concat bufs) m'
  unfolding write_all
  write_all-Written [] m v h = (m, refl, Written-nil m v)
  write_all-Written (b ∷ bs) m v (h, hs) =
      let (m', e, w) = write_ok m b v h in
      let (m'', e', w') = write_all-Written bs m' w.valid hs in
      (m'', rw (e, write_all) e', Written-append b (concat bs) w w')

  -- A run that returned is the one above.
  Written-of :
      (bufs : List Bytes) (m m' : M)
      → S.IsValid m
      → AreBuffers bufs
      → write_all write m bufs ≡ some m'
      → Written F S m (concat bufs) m'
  Written-of bufs m m' v h e =
      let (m1, e1, w) = write_all-Written bufs m v h in
      let same : m1 ≡ m' = cc in subst (Written F S m (concat bufs)) same w

  -- How the stream is cut into buffers makes no difference.
  pub write_all-chunks :
      (bufs bufs' : List Bytes) (m m1 m2 : M)
      → S.IsValid m
      → AreBuffers bufs
      → AreBuffers bufs'
      → concat bufs ≡ concat bufs'
      → write_all write m bufs ≡ some m1
      → write_all write m bufs' ≡ some m2
      → (events_of (S.calls m1) ≡ events_of (S.calls m2)) × (S.pending m1 ≡ S.pending m2)
  write_all-chunks bufs bufs' m m1 m2 v h h' e e1 e2 =
      let w1 = Written-of bufs m m1 v h e1 in
      let w2 = Written-of bufs' m m2 v h' e2 in
      let (p, q) = Scans-unique w1.scans (rw (← e) at w2.scans) in
      (w1.calls_are ∙ ap (◌++◌ (events_of (S.calls m))) p ∙ sym w2.calls_are, q)

  -- The bytes handed on, and those that wait, are the bytes that came, in their order.
  pub write_all-bytes_of :
      (bufs : List Bytes) (m m' : M)
      → S.IsValid m
      → AreBuffers bufs
      → write_all write m bufs ≡ some m'
      → bytes_of (events_of (S.calls m')) ++ S.pending m'
        ≡ bytes_of (events_of (S.calls m)) ++ (S.pending m ++ concat bufs)
  write_all-bytes_of bufs m m' v h e =
      let w = Written-of bufs m m' v h e in
      let old = bytes_of (events_of (S.calls m)) in
      ap (λ t. bytes_of t ++ S.pending m') w.calls_are
      ∙ ap (λ t. t ++ S.pending m') (bytes_of-append (events_of (S.calls m)) w.events)
      ∙ append_assoc old (bytes_of w.events) (S.pending m')
      ∙ ap (◌++◌ old) (Scans-bytes_of w.scans)

  -- Only packets of the format are handed on as packets.
  pub write_all-AllPackets :
      (bufs : List Bytes) (m m' : M)
      → S.IsValid m
      → AreBuffers bufs
      → write_all write m bufs ≡ some m'
      → AllPackets F.IsPacket (events_of (S.calls m))
      → AllPackets F.IsPacket (events_of (S.calls m'))
  write_all-AllPackets bufs m m' v h e a =
      let w = Written-of bufs m m' v h e in
      rw w.calls_are
        (AllPackets-append F.IsPacket (events_of (S.calls m)) w.events a (Scans-AllPackets w.scans))

  -- A stream of packets, cut in any way, is handed on packet by packet.
  pub write_all-concat :
      (bufs ps : List Bytes) (m m' : M)
      → S.IsValid m
      → AreBuffers bufs
      → write_all write m bufs ≡ some m'
      → S.pending m ≡ []
      → AllOf F.IsPacket ps
      → concat bufs ≡ concat ps
      → (events_of (S.calls m') ≡ events_of (S.calls m) ++ map packet_event ps)
        × (S.pending m' ≡ [])
  write_all-concat bufs ps m m' v h e idle good cut =
      let w = Written-of bufs m m' v h e in
      let cut_up : Scans F (concat ps) (map packet_event ps) [] = Scans-concat ps good in
      let (p, q) = Scans-unique (rw (idle, cut) at w.scans) cut_up in
      (w.calls_are ∙ ap (◌++◌ (events_of (S.calls m))) p, q)
