-- ===== src/Filters/Scan/Laws.antt =====
-- What holds of the scanner over every packet format.
use uav_router.Base.{
  ℕ, ◌≤◌, ◌≡◌, refl, sym, ap, ◌∙◌, List, [], ◌∷◌, ◌++◌, map, append_assoc, arith, Bytes, length,
  take, drop, length-append, take-append-drop, take-append, drop-append, take_all, drop_all,
}
use mathlib.Core.Path.{subst}
use uav_router.Filters.Scan.Defs.{
  more, reject, accept, Event, packet, skipped, skip_all, Format, Scans, wait, skip, pass, bytes_of,
  AllPackets, AllOf, concat,
}

bytes_of-skip_all :
    (bs : Bytes) (es : List Event) → bytes_of (skip_all bs ++ es) ≡ bs ++ bytes_of es
bytes_of-skip_all [] es = refl
bytes_of-skip_all (b ∷ bs) es = ap (◌∷◌ b) (bytes_of-skip_all bs es)

AllPackets-skip_all :
    (P : Bytes → Type 0) (bs : Bytes) (es : List Event)
    → AllPackets P es
    → AllPackets P (skip_all bs ++ es)
AllPackets-skip_all P [] es h = h
AllPackets-skip_all P (b ∷ bs) es h = AllPackets-skip_all P bs es h

-- The events' bytes and the bytes that wait are the stream: nothing is lost, added or moved.
pub Scans-bytes_of :
    {F : Format} {bs rest : Bytes} {es : List Event} → Scans F bs es rest → bytes_of es ++ rest ≡ bs
Scans-bytes_of (wait e) = refl
Scans-bytes_of {bs = bs} {rest} (skip {es = es} n e s) =
    ap (λ t. t ++ rest) (bytes_of-skip_all (take n bs) es)
    ∙ append_assoc (take n bs) (bytes_of es) rest
    ∙ ap (◌++◌ (take n bs)) (Scans-bytes_of s)
    ∙ take-append-drop n bs
Scans-bytes_of {bs = bs} {rest} (pass {es = es} n e s) =
    append_assoc (take n bs) (bytes_of es) rest
    ∙ ap (◌++◌ (take n bs)) (Scans-bytes_of s)
    ∙ take-append-drop n bs

-- What waits is no longer than the stream.
pub Scans-length-le :
    {F : Format} {bs rest : Bytes} {es : List Event} → Scans F bs es rest → length rest ≤ length bs
Scans-length-le {rest = rest} {es} s =
    omega (arith, ap length (Scans-bytes_of s), length-append (bytes_of es) rest)

-- Every packet handed on is one of the format.
pub Scans-AllPackets :
    {F : Format} {bs rest : Bytes} {es : List Event} → Scans F bs es rest → AllPackets F.IsPacket es
Scans-AllPackets (wait e) = tt
Scans-AllPackets {F} {bs} (skip {es = es} n e s) =
    AllPackets-skip_all F.IsPacket (take n bs) es (Scans-AllPackets s)
Scans-AllPackets {F} {bs} (pass n e s) = (F.accept-IsPacket bs n e, Scans-AllPackets s)

-- What waits is not yet decided.
pub Scans-more :
    {F : Format} {bs rest : Bytes} {es : List Event} → Scans F bs es rest → F.classify rest ≡ more
Scans-more (wait e) = e
Scans-more (skip n e s) = Scans-more s
Scans-more (pass n e s) = Scans-more s

-- One step of a scan of `bs`, to go on behind the first `n` bytes.
pub Scans-skip :
    {F : Format} (bs : Bytes) (n : ℕ) (tail : Bytes) {es : List Event} {rest : Bytes}
    → F.classify bs ≡ reject n
    → drop n bs ≡ tail
    → Scans F tail es rest
    → Scans F bs (skip_all (take n bs) ++ es) rest
Scans-skip {F} bs n tail {es} {rest} e d s = skip n e (rw d s)

pub Scans-pass :
    {F : Format} (bs : Bytes) (n : ℕ) (tail : Bytes) {es : List Event} {rest : Bytes}
    → F.classify bs ≡ accept n
    → drop n bs ≡ tail
    → Scans F tail es rest
    → Scans F bs (packet (take n bs) ∷ es) rest
Scans-pass {F} bs n tail e d s = pass n e (rw d s)

-- A stream may be scanned in two parts: what the first part leaves waits for the second.
pub Scans-append :
    {F : Format} {bs rest : Bytes} {es : List Event} (later : Bytes) {es' : List Event}
    {rest' : Bytes}
    → Scans F bs es rest
    → Scans F (rest ++ later) es' rest'
    → Scans F (bs ++ later) (es ++ es') rest'
Scans-append later (wait e) t = t
Scans-append {F} {bs = bs} later {es'} {rest'} (skip {es = es} n e s) t =
    let head = take-append n bs later (F.reject_bounds bs n e).1 in
    rw (append_assoc (skip_all (take n bs)) es es') (
      rw head at (
        Scans-skip (bs ++ later) n (drop n bs ++ later) (F.reject_stable bs later n e)
          (drop-append n bs later (F.reject_bounds bs n e).1) (Scans-append later s t)))
Scans-append {F} {bs = bs} later {es'} {rest'} (pass {es = es} n e s) t =
    let head = take-append n bs later (F.accept_bounds bs n e).1 in
    rw head at (
      Scans-pass (bs ++ later) n (drop n bs ++ later) (F.accept_stable bs later n e)
        (drop-append n bs later (F.accept_bounds bs n e).1) (Scans-append later s t))

-- At a front that is rejected or accepted there is one way on.
Scans-reject :
    {F : Format} {bs rest : Bytes} {es : List Event} (n : ℕ)
    → F.classify bs ≡ reject n
    → Scans F bs es rest
    → (es' : List Event) × (es ≡ skip_all (take n bs) ++ es') × Scans F (drop n bs) es' rest
Scans-reject n e (wait m) = cc
Scans-reject {F} {bs} {rest} n e (skip {es = es'} k e' s) =
    let same : k ≡ n = ground arith in (es', rw same, rw same at s)
Scans-reject n e (pass k e' s) = cc

Scans-accept :
    {F : Format} {bs rest : Bytes} {es : List Event} (n : ℕ)
    → F.classify bs ≡ accept n
    → Scans F bs es rest
    → (es' : List Event) × (es ≡ packet (take n bs) ∷ es') × Scans F (drop n bs) es' rest
Scans-accept n e (wait m) = cc
Scans-accept n e (skip k e' s) = cc
Scans-accept {F} {bs} {rest} n e (pass {es = es'} k e' s) =
    let same : k ≡ n = ground arith in (es', rw same, rw same at s)

Scans-wait :
    {F : Format} {bs rest : Bytes} {es : List Event}
    → F.classify bs ≡ more
    → Scans F bs es rest
    → (es ≡ []) × (rest ≡ bs)
Scans-wait e (wait m) = (refl, refl)
Scans-wait e (skip k e' s) = cc
Scans-wait e (pass k e' s) = cc

-- A stream is scanned in one way only.
pub Scans-unique :
    {F : Format} {bs rest rest' : Bytes} {es es' : List Event}
    → Scans F bs es rest
    → Scans F bs es' rest'
    → (es ≡ es') × (rest ≡ rest')
Scans-unique (wait e) t = let (p, q) = Scans-wait e t in (sym p, sym q)
Scans-unique {bs = bs} (skip n e s) t =
    let (es₂, p, t₂) = Scans-reject n e t in
    let (q, r) = Scans-unique s t₂ in (ap (◌++◌ (skip_all (take n bs))) q ∙ sym p, r)
Scans-unique {bs = bs} (pass n e s) t =
    let (es₂, p, t₂) = Scans-accept n e t in
    let (q, r) = Scans-unique s t₂ in (ap (◌∷◌ (packet (take n bs))) q ∙ sym p, r)

-- A stream made of packets is cut into just these.
pub Scans-concat :
    {F : Format} (ps : List Bytes) → AllOf F.IsPacket ps → Scans F (concat ps) (map packet ps) []
Scans-concat {F} [] h = wait F.classify-nil
Scans-concat {F} (p ∷ ps) (h, hs) =
    let whole = F.IsPacket-accept p h in
    let head : take (length p) (p ++ concat ps) ≡ p =
      take-append (length p) p (concat ps) (omega arith) ∙ take_all (length p) p (omega arith) in
    let tail : drop (length p) (p ++ concat ps) ≡ concat ps =
      drop-append (length p) p (concat ps) (omega arith)
      ∙ ap (λ t. t ++ concat ps) (drop_all (length p) p (omega arith)) in
    subst (λ q. Scans F (p ++ concat ps) (packet q ∷ map packet ps) []) head
      (Scans-pass (p ++ concat ps) (length p) (concat ps)
        (F.accept_stable p (concat ps) (length p) whole) tail (Scans-concat ps hs))

pub bytes_of-append : (es ds : List Event) → bytes_of (es ++ ds) ≡ bytes_of es ++ bytes_of ds
bytes_of-append [] ds = refl
bytes_of-append (packet p ∷ es) ds =
    ap (◌++◌ p) (bytes_of-append es ds) ∙ sym (append_assoc p (bytes_of es) (bytes_of ds))
bytes_of-append (skipped b ∷ es) ds = ap (◌∷◌ b) (bytes_of-append es ds)

pub AllPackets-append :
    (P : Bytes → Type 0) (es ds : List Event)
    → AllPackets P es
    → AllPackets P ds
    → AllPackets P (es ++ ds)
AllPackets-append P [] ds h k = k
AllPackets-append P (packet p ∷ es) ds (h, hs) k = (h, AllPackets-append P es ds hs k)
AllPackets-append P (skipped b ∷ es) ds h k = AllPackets-append P es ds h k
