-- ===== src/Filters/Scan/Defs.antt =====
-- The scanner that specifies the recognizers: a packet format decides what the front of the stream
-- is, and the stream is cut accordingly.
use uav_router.Base.{ℕ, ◌≤◌, ◌<◌, ◌≡◌, List, [], ◌∷◌, ◌++◌, map, Bytes, length, take, drop}

-- What the front of the stream is: too short to tell, the first `n` bytes are no packet, or the
-- first `n` bytes are a packet.
pub data Verdict : Type 0 where
  more : Verdict
  reject : ℕ → Verdict
  accept : ℕ → Verdict

-- What the scanner hands on, in order.
pub data Event : Type 0 where
  packet : Bytes → Event
  skipped : ℕ → Event

abbrev pub skip_all : Bytes → List Event
skip_all = map skipped

-- A packet format: how the front of a stream is judged, and which byte strings are packets. The
-- verdict depends only on the bytes that it speaks of.
pub record Format : Type 1 where
  pub classify : Bytes → Verdict
  pub IsPacket : Bytes → Type 0
  pub classify-nil : classify [] ≡ more
  pub reject_bounds : (bs : Bytes) (n : ℕ) → classify bs ≡ reject n → (0 < n) × (n ≤ length bs)
  pub accept_bounds : (bs : Bytes) (n : ℕ) → classify bs ≡ accept n → (0 < n) × (n ≤ length bs)
  pub reject_stable :
      (bs rest : Bytes) (n : ℕ) → classify bs ≡ reject n → classify (bs ++ rest) ≡ reject n
  pub accept_stable :
      (bs rest : Bytes) (n : ℕ) → classify bs ≡ accept n → classify (bs ++ rest) ≡ accept n
  pub accept-IsPacket : (bs : Bytes) (n : ℕ) → classify bs ≡ accept n → IsPacket (take n bs)
  pub IsPacket-accept : (bs : Bytes) → IsPacket bs → classify bs ≡ accept (length bs)

-- `Scans F bs es rest`: the stream `bs` yields the events `es`, and `rest` waits for more bytes.
pub data Scans (F : Format) : Bytes → List Event → Bytes → Type 0 where
  wait : {bs : Bytes} → F.classify bs ≡ more → Scans F bs [] bs
  skip :
      {bs : Bytes} {es : List Event} {rest : Bytes} (n : ℕ)
      → F.classify bs ≡ reject n
      → Scans F (drop n bs) es rest
      → Scans F bs (skip_all (take n bs) ++ es) rest
  pass :
      {bs : Bytes} {es : List Event} {rest : Bytes} (n : ℕ)
      → F.classify bs ≡ accept n
      → Scans F (drop n bs) es rest
      → Scans F bs (packet (take n bs) ∷ es) rest

-- The bytes of the events, in order.
abbrev pub bytes_of : List Event → Bytes
bytes_of [] = []
bytes_of (packet p ∷ es) = p ++ bytes_of es
bytes_of (skipped b ∷ es) = b ∷ bytes_of es

-- The packets among the events, in order.
abbrev pub packets_of : List Event → List Bytes
packets_of [] = []
packets_of (packet p ∷ es) = p ∷ packets_of es
packets_of (skipped b ∷ es) = packets_of es

-- The skipped bytes among the events, in order.
abbrev pub skipped_of : List Event → Bytes
skipped_of [] = []
skipped_of (packet p ∷ es) = skipped_of es
skipped_of (skipped b ∷ es) = b ∷ skipped_of es

abbrev pub AllPackets : (Bytes → Type 0) → List Event → Type 0
AllPackets P [] = Unit {0}
AllPackets P (packet p ∷ es) = P p × AllPackets P es
AllPackets P (skipped b ∷ es) = AllPackets P es

abbrev pub AllOf : (Bytes → Type 0) → List Bytes → Type 0
AllOf P [] = Unit {0}
AllOf P (p ∷ ps) = P p × AllOf P ps

abbrev pub concat : List Bytes → Bytes
concat [] = []
concat (p ∷ ps) = p ++ concat ps
