-- ===== src/Demuxer/Hevc.antt =====
-- The H.265 decoder, rtmp_hevc_decoder.h and rtmp_hevc_decoder.cc: it cuts a video packet into units by
-- their lengths. The media-server library is a parameter. A pointer into the packet is the number of
-- bytes before it.
pub mod Single
pub mod Ends
mod Runs
use simple_rtmp.Base.{
  ℕ, zero, suc, ◌+◌, ◌%◌, ◌/◌, ◌^◌, List, [], ◌∷◌, ◌++◌, Bool, ◌&&◌, ◌||◌, Option, none, some,
  length, take, drop, get_or, ltb, leb, ◌==◌, if◌then◌else◌,
}
use simple_rtmp.Base.Int.{ℤ, pos, negsuc, ◌+ℤ◌}
use simple_rtmp.Codec.{video, h265}
use simple_rtmp.Frame.{Frame, FrameBuffer, fixed, new_frame, resize, bytes_of, pts}
use simple_rtmp.Sink.{Signal, frame, failed}
use simple_rtmp.Demuxer.H264.{
  VideoTag, big_endian, sum_sizes, sequence_header, avpacket, end_of_sequence, eof,
}

-- The library: `A` is `struct mpeg4_hevc_t`.
pub record Library (A : Type 0) : Type 0 where
  pub zeroed : A
  -- flv_video_tag_header_read; `none` is a negative result.
  pub read_tag : List ℕ → Option VideoTag
  -- mpeg4_hevc_decoder_configuration_record_load
  pub load : List ℕ → A → A
  -- lengthSizeMinusOne + 1
  pub length_size : A → ℕ
  -- The sizes of the parameter sets.
  pub nalu_bytes : A → List ℕ
  -- mpeg4_hevc_to_nalu: the result and what it leaves in the bytes it was given.
  pub to_nalu : A → List ℕ → ℤ × List ℕ

pub record Args (A : Type 0) : Type 0 where
  pub hevc : A
  pub vps_sps_pps_flag : ℕ

-- `sent` is the log of the calls of `write` on the channel.
pub record HevcDecoder (A : Type 0) : Type 0 where
  pub ch : Option ℕ
  pub args : Option (Args A)
  pub sent : List (ℕ × Signal)

-- How a call ends: it returns, or reads behind the packet's end.
pub data Outcome (A : Type 0) : Type 0 where
  returned : HevcDecoder A → Outcome A
  behind_end : HevcDecoder A → Outcome A
  out_of_fuel : Outcome A

-- A round of the loop ends the call, or leaves `data_offset` and `offset`.
pub data Round (A : Type 0) : Type 0 where
  ended : Outcome A → Round A
  next : ℕ → ℕ → Args A → HevcDecoder A → Round A

abbrev pub is_parameter_set : ℕ → Bool
is_parameter_set nalu_type = nalu_type == 32 || (nalu_type == 33 || nalu_type == 34)

abbrev pub is_irap : ℕ → Bool
is_irap nalu_type = leb 16 nalu_type && leb nalu_type 23

abbrev pub video_frame : ℤ → ℤ → ℕ → List ℕ → Frame
video_frame timestamp cts keyframe bytes = record (new_frame bytes) {
  media = video;
  codec = h265;
  flag = keyframe;
  pts = timestamp +ℤ cts;
  dts = timestamp;
}

module _ {A : Type 0} where
  unfoldable pub new_decoder : HevcDecoder A
  new_decoder = record { ch = none; args = none; sent = [] }

  unfoldable pub set_output : Option ℕ → HevcDecoder A → HevcDecoder A
  set_output c d = record d { ch = c }

  unfoldable pub on_frame : Signal → HevcDecoder A → HevcDecoder A
  on_frame signal d = elim d.ch [
    | none ↦ d
    | some c ↦ record d { sent = d.sent ++ (c, signal) ∷ [] }
  ]

  -- The last part of a round, with `data_offset`, the unit's length and `offset`. The unit goes out as
  -- it is, without the start code.
  unfoldable pub send_unit : ℤ → ℤ → ℕ → List ℕ → ℕ → ℕ → ℕ → Args A → HevcDecoder A → Round A
  unfolding on_frame
  send_unit timestamp cts keyframe packet at nalu offset args d =
      let start = at + offset in
      if ltb (length packet) (start + nalu)
      then ended (behind_end d)
      else next (start + (offset + nalu)) (offset + nalu) args (
          on_frame
            (frame (fixed (video_frame timestamp cts keyframe (take nalu (drop start packet))))) d)

module _ {A : Type 0} (lib : Library A) where
  -- What is done with a unit of this type, where `offset` has the bytes of its length. The frame of the
  -- parameter sets is made of the packet's bytes, and then written.
  unfoldable pub take_unit : ℤ → ℤ → ℕ → List ℕ → ℕ → ℕ → ℕ → ℕ → Args A → HevcDecoder A → Round A
  unfolding send_unit on_frame sum_sizes resize
  take_unit timestamp cts keyframe packet at nalu offset nalu_type args0 d0 =
      let args =
        if is_parameter_set nalu_type then record args0 { vps_sps_pps_flag = 1 } else args0 in
      let d = record d0 { args = some args } in
      let n = sum_sizes (lib.nalu_bytes args.hevc) in
      let (ret, bytes) = lib.to_nalu args.hevc (take n (drop at packet)) in
      if is_irap nalu_type && args.vps_sps_pps_flag == 0
      then (if ltb (length packet) (at + n) then ended (behind_end d) else elim ret [
        | negsuc m ↦ ended (returned d)
        | pos m ↦
            if m == 0
            then ended (returned d)
            else (let args' = record args { vps_sps_pps_flag = 1 } in
                let sets = fixed (resize m (video_frame timestamp cts keyframe bytes)) in
                send_unit timestamp cts keyframe packet at nalu (offset + m) args'
                  (record (on_frame (frame sets) d) { args = some args' }))
      ])
      else send_unit timestamp cts keyframe packet at nalu offset args d

  -- A round of the loop; a length of 2 ^ 31 or more is negative.
  unfoldable pub round : ℤ → ℤ → ℕ → List ℕ → ℕ → ℕ → Args A → HevcDecoder A → Round A
  unfolding big_endian take_unit
  round timestamp cts keyframe packet at offset args d =
      let k = lib.length_size args.hevc in
      let nalu = big_endian 0 (take k (drop at packet)) in
      let unit = at + (offset + k) in
      if ltb (length packet) (at + k)
      then ended (behind_end d)
      else if k == 1 || (nalu == 1 && (k == 3 || k == 4))
      then ended (returned d)
      else if leb (2 ^ 31) nalu || ltb (length packet) (at + nalu)
      then ended (returned d)
      else if leb (length packet) unit
      then ended (behind_end d)
      else take_unit timestamp cts keyframe packet at nalu (offset + k)
          (get_or packet unit 0 / 2 % 64) args d

  unfoldable pub demuxer_loop : ℕ → ℤ → ℤ → ℕ → List ℕ → ℕ → ℕ → Args A → HevcDecoder A → Outcome A
  unfolding round
  demuxer_loop zero timestamp cts keyframe packet at offset args d = out_of_fuel
  demuxer_loop (suc fuel) timestamp cts keyframe packet at offset args d =
      elim (round timestamp cts keyframe packet at offset args d) [
        | ended result ↦ result
        | next at' offset' args' d' ↦
            demuxer_loop fuel timestamp cts keyframe packet at' offset' args' d'
      ]

  unfoldable pub demuxer_avpacket : List ℕ → ℤ → ℤ → ℕ → Args A → HevcDecoder A → Outcome A
  unfolding demuxer_loop
  demuxer_avpacket packet timestamp cts keyframe args d =
      demuxer_loop (suc (length packet)) timestamp cts keyframe packet 0 0 args d

  unfoldable pub write_packet : VideoTag → FrameBuffer → HevcDecoder A → Outcome A
  unfolding demuxer_avpacket on_frame
  write_packet tag f d =
      let packet = drop tag.read (bytes_of f) in
      if tag.avpacket == sequence_header
      then returned (record d {
        args = some (record { hevc = lib.load packet lib.zeroed; vps_sps_pps_flag = 0 });
      })
      else elim d.args [
        | none ↦ returned d
        | some args ↦
            if tag.avpacket == end_of_sequence
            then returned (on_frame (failed eof) d)
            else if tag.avpacket == avpacket
            then demuxer_avpacket packet (pts f) tag.cts (if tag.keyframe == 1 then 1 else 0) args d
            else returned d
      ]

  unfoldable pub write : Signal → HevcDecoder A → Outcome A
  unfolding write_packet on_frame
  write (failed ec) d = returned (on_frame (failed ec) d)
  write (frame f) d = elim (lib.read_tag (bytes_of f)) [
    | none ↦ returned d
    | some tag ↦ write_packet tag f d
  ]
