-- ===== src/Filters/Ubx/Writes.antt =====
-- What a sequence of calls of UBX::write does.
use uav_router.Base.{◌≡◌, some, List, [], ◌++◌, map, Bytes}
use uav_router.Filters.Scan.{packet as packet_event, bytes_of, AllPackets, AllOf, concat}
use uav_router.Filters.Calls.{events_of}
use uav_router.Filters.Stream.{
  Written, AreBuffers, write_all, write_all-Written, write_all-chunks, write_all-bytes_of,
  write_all-AllPackets, write_all-concat,
}
use uav_router.Filters.Ubx.Defs.{Ubx, write, waiting, pending}
use uav_router.Filters.Ubx.Packets.{ubx_format, IsUbx}
use uav_router.Filters.Ubx.Shape.{IsValid, shape}
use uav_router.Filters.Ubx.Laws.{undecided, write_ok}

module _ (bufs : List Bytes) (m : Ubx) (v : IsValid m) (h : AreBuffers bufs) where
  -- From a valid state, the calls of `write` on any buffers of bytes return. They leave a valid
  -- state, and the calls that they made to the base class hand on what the scanner of the format
  -- says of the bytes that waited and the bytes of the buffers; what it leaves waits.
  pub ubx_writes :
      (m' : Ubx) × (write_all write m bufs ≡ some m') × Written ubx_format shape m (concat bufs) m'
  unfolding shape waiting
  ubx_writes = write_all-Written ubx_format shape write undecided write_ok bufs m v h

  module _ (m' : Ubx) (run : write_all write m bufs ≡ some m') where
    -- However the same stream is cut into buffers, the same packets and the same other bytes are
    -- handed on in the same order, and the same bytes wait.
    pub ubx_chunks :
        (bufs' : List Bytes) (m'' : Ubx)
        → AreBuffers bufs'
        → concat bufs ≡ concat bufs'
        → write_all write m bufs' ≡ some m''
        → (events_of m'.calls ≡ events_of m''.calls) × (pending m' ≡ pending m'')
    unfolding shape waiting pending
    ubx_chunks bufs' m'' h' same run' =
        write_all-chunks ubx_format shape write undecided write_ok bufs bufs' m m' m'' v h h' same
          run run'

    -- The bytes handed on, as packets or as belonging to none, and then the bytes that wait, are
    -- those of before and the bytes of the buffers: none is lost, made up or moved.
    pub ubx_bytes :
        bytes_of (events_of m'.calls) ++ pending m'
        ≡ bytes_of (events_of m.calls) ++ (pending m ++ concat bufs)
    unfolding shape waiting pending
    ubx_bytes = write_all-bytes_of ubx_format shape write undecided write_ok bufs m m' v h run

    -- If only packets were handed on as such before, then this holds afterwards too: each begins
    -- with 0xB5 0x62, is as long as its length bytes say, and ends in its two sums.
    pub IsUbx-sound : AllPackets IsUbx (events_of m.calls) → AllPackets IsUbx (events_of m'.calls)
    unfolding shape waiting ubx_format
    IsUbx-sound = write_all-AllPackets ubx_format shape write undecided write_ok bufs m m' v h run

    -- A stream that consists of packets, in buffers cut in any way, is handed on packet by packet
    -- by a recognizer where nothing waits, and nothing waits afterwards.
    pub ubx_complete :
        (ps : List Bytes)
        → pending m ≡ []
        → AllOf IsUbx ps
        → concat bufs ≡ concat ps
        → (events_of m'.calls ≡ events_of m.calls ++ map packet_event ps) × (pending m' ≡ [])
    unfolding shape waiting ubx_format pending
    ubx_complete ps idle good cut =
        write_all-concat ubx_format shape write undecided write_ok bufs ps m m' v h run idle good
          cut
