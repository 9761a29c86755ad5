-- ===== src/Filters/Mavlink/Writes.antt =====
-- What a sequence of calls of Mavlink_v1::write does.
use uav_router.Base.{◌≡◌, Option, some, List, [], ◌++◌, map, Bytes}
use uav_router.Filters.Scan.{packet as packet_event, bytes_of, AllPackets, AllOf, concat}
use uav_router.Filters.Calls.{events_of}
use uav_router.Filters.Stream.{
  Written, AreBuffers, write_all, write_all-Written, write_all-chunks, write_all-bytes_of,
  write_all-AllPackets, write_all-concat,
}
use uav_router.Filters.Mavlink.Defs.{Mavlink, write, waiting, pending}
use uav_router.Filters.Mavlink.Packets.{mavlink_format, IsMavlink}
use uav_router.Filters.Mavlink.Shape.{IsValid, shape}
use uav_router.Filters.Mavlink.Laws.{undecided, write_ok}

module _ (extra : Option Bytes) (bufs : List Bytes) (m : Mavlink) (v : IsValid extra m)
    (h : AreBuffers bufs) where
  -- From a valid state, the calls of `write` on any buffers of bytes return. They leave a valid
  -- state, and the calls that they made to the base class hand on what the scanner of the format
  -- says of the bytes that waited and the bytes of the buffers; what it leaves waits.
  pub mavlink_writes :
      (m' : Mavlink) × (write_all write m bufs ≡ some m')
      × Written (mavlink_format extra) (shape extra) m (concat bufs) m'
  unfolding shape waiting
  mavlink_writes =
      write_all-Written (mavlink_format extra) (shape extra) write (undecided extra)
        (write_ok extra) bufs m v h

  module _ (m' : Mavlink) (run : write_all write m bufs ≡ some m') where
    -- However the same stream is cut into buffers, the same packets and the same other bytes are
    -- handed on in the same order, and the same bytes wait.
    pub mavlink_chunks :
        (bufs' : List Bytes) (m'' : Mavlink)
        → AreBuffers bufs'
        → concat bufs ≡ concat bufs'
        → write_all write m bufs' ≡ some m''
        → (events_of m'.calls ≡ events_of m''.calls) × (pending m' ≡ pending m'')
    unfolding shape waiting pending
    mavlink_chunks bufs' m'' h' same run' =
        write_all-chunks (mavlink_format extra) (shape extra) write (undecided extra)
          (write_ok extra) bufs bufs' m m' m'' v h h' same run run'

    -- The bytes handed on, as packets or as belonging to none, and then the bytes that wait, are
    -- those of before and the bytes of the buffers: none is lost, made up or moved.
    pub mavlink_bytes :
        bytes_of (events_of m'.calls) ++ pending m'
        ≡ bytes_of (events_of m.calls) ++ (pending m ++ concat bufs)
    unfolding shape waiting pending
    mavlink_bytes =
        write_all-bytes_of (mavlink_format extra) (shape extra) write (undecided extra)
          (write_ok extra) bufs m m' v h run

    -- If only packets were handed on as such before, then this holds afterwards too: each begins
    -- with 0xFE, is as long as its length byte says, and ends in its checksum.
    pub IsMavlink-sound :
        AllPackets (IsMavlink extra) (events_of m.calls)
        → AllPackets (IsMavlink extra) (events_of m'.calls)
    unfolding shape waiting mavlink_format
    IsMavlink-sound =
        write_all-AllPackets (mavlink_format extra) (shape extra) write (undecided extra)
          (write_ok extra) bufs m m' v h run

    -- A stream that consists of packets, in buffers cut in any way, is handed on packet by packet
    -- by a recognizer where nothing waits, and nothing waits afterwards.
    pub mavlink_complete :
        (ps : List Bytes)
        → pending m ≡ []
        → AllOf (IsMavlink extra) ps
        → concat bufs ≡ concat ps
        → (events_of m'.calls ≡ events_of m.calls ++ map packet_event ps) × (pending m' ≡ [])
    unfolding shape waiting mavlink_format pending
    mavlink_complete ps idle good cut =
        write_all-concat (mavlink_format extra) (shape extra) write (undecided extra)
          (write_ok extra) bufs ps m m' v h run idle good cut
