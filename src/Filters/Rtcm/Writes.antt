-- ===== src/Filters/Rtcm/Writes.antt =====
-- What a sequence of calls of RTCM_v3::write does.
use uav_router.Base.{◌≡◌, some, List, [], ◌++◌, map, Bytes}
use uav_router.Filters.Scan.{packet as packet_event, bytes_of, AllPackets, AllOf, concat}
use uav_router.Filters.Calls.{events_of}
use uav_router.Filters.Stream.{
  Written, AreBuffers, write_all, write_all-Written, write_all-chunks, write_all-bytes_of,
  write_all-AllPackets, write_all-concat,
}
use uav_router.Filters.Rtcm.Defs.{Rtcm, write, waiting, pending}
use uav_router.Filters.Rtcm.Packets.{rtcm_format, IsRtcm}
use uav_router.Filters.Rtcm.Shape.{IsValid, shape}
use uav_router.Filters.Rtcm.Laws.{undecided, write_ok}

module _ (bufs : List Bytes) (m : Rtcm) (v : IsValid m) (h : AreBuffers bufs) where
  -- From a valid state, the calls of `write` on any buffers of bytes return. They leave a valid
  -- state, and the calls that they made to the base class hand on what the scanner of the format
  -- says of the bytes that waited and the bytes of the buffers; what it leaves waits.
  pub rtcm_writes :
      (m' : Rtcm) × (write_all write m bufs ≡ some m')
      × Written rtcm_format shape m (concat bufs) m'
  unfolding shape waiting
  rtcm_writes = write_all-Written rtcm_format shape write undecided write_ok bufs m v h

  module _ (m' : Rtcm) (run : write_all write m bufs ≡ some m') where
    -- However the same stream is cut into buffers, the same packets and the same other bytes are
    -- handed on in the same order, and the same bytes wait.
    pub rtcm_chunks :
        (bufs' : List Bytes) (m'' : Rtcm)
        → AreBuffers bufs'
        → concat bufs ≡ concat bufs'
        → write_all write m bufs' ≡ some m''
        → (events_of m'.calls ≡ events_of m''.calls) × (pending m' ≡ pending m'')
    unfolding shape waiting pending
    rtcm_chunks bufs' m'' h' same run' =
        write_all-chunks rtcm_format shape write undecided write_ok bufs bufs' m m' m'' v h h' same
          run run'

    -- The bytes handed on, as packets or as belonging to none, and then the bytes that wait, are
    -- those of before and the bytes of the buffers: none is lost, made up or moved.
    pub rtcm_bytes :
        bytes_of (events_of m'.calls) ++ pending m'
        ≡ bytes_of (events_of m.calls) ++ (pending m ++ concat bufs)
    unfolding shape waiting pending
    rtcm_bytes = write_all-bytes_of rtcm_format shape write undecided write_ok bufs m m' v h run

    -- If only packets were handed on as such before, then this holds afterwards too: each begins
    -- with 0xD3, is as long as its length bits say, and ends in its checksum.
    pub IsRtcm-sound :
        AllPackets IsRtcm (events_of m.calls) → AllPackets IsRtcm (events_of m'.calls)
    unfolding shape waiting rtcm_format
    IsRtcm-sound = write_all-AllPackets rtcm_format shape write undecided write_ok bufs m m' v h run

    -- A stream that consists of packets, in buffers cut in any way, is handed on packet by packet
    -- by a recognizer where nothing waits, and nothing waits afterwards.
    pub rtcm_complete :
        (ps : List Bytes)
        → pending m ≡ []
        → AllOf IsRtcm ps
        → concat bufs ≡ concat ps
        → (events_of m'.calls ≡ events_of m.calls ++ map packet_event ps) × (pending m' ≡ [])
    unfolding shape waiting rtcm_format pending
    rtcm_complete ps idle good cut =
        write_all-concat rtcm_format shape write undecided write_ok bufs ps m m' v h run idle good
          cut
