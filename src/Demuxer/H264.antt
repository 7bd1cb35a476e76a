-- ===== src/Demuxer/H264.antt =====
-- The H.264 decoder, rtmp_h264_decoder.h and rtmp_h264_decoder.cc: it cuts a video packet into its
-- length-prefixed units and puts a start code before each.
-- The media-server library's reading of the tag, of the configuration and its writing of the
-- parameter sets are a parameter. `none` is a read behind the end of the packet, or the assertion
-- that fails.
use simple_rtmp.Base.{
  ℕ, zero, suc, ◌+◌, ◌*◌, ◌%◌, ◌^◌, List, [], ◌∷◌, ◌++◌, ◌&&◌, Option, none, some, length, take,
  drop, get_or, ltb, leb, ◌==◌, if◌then◌else◌,
}
use simple_rtmp.Base.Int.{ℤ, pos, ltb_ℤ, ◌+ℤ◌}
use simple_rtmp.Codec.{video, h264}
use simple_rtmp.Frame.{Frame, FrameBuffer, fixed, new_frame, resize, bytes_of, pts}
use simple_rtmp.Sink.{Signal, frame, failed}

-- `struct flv_video_tag_header_t`, as far as it is used, with the bytes it took.
pub record VideoTag : Type 0 where
  pub read : ℕ
  pub avpacket : ℕ
  pub keyframe : ℕ
  pub cts : ℤ

-- The library: `A` is `struct mpeg4_avc_t`.
pub record Library (A : Type 0) : Type 0 where
  pub zeroed : A
  -- flv_video_tag_header_read; `none` is a negative result.
  pub read_tag : List ℕ → Option VideoTag
  -- mpeg4_avc_decoder_configuration_record_load
  pub load : List ℕ → A → A
  pub nalu : A → ℕ
  pub sps_bytes : A → List ℕ
  pub pps_bytes : A → List ℕ
  -- mpeg4_avc_to_nalu: the result and what it leaves in the bytes it was given.
  pub to_nalu : A → List ℕ → ℤ × List ℕ

pub record Args (A : Type 0) : Type 0 where
  pub avc : A
  pub sps_pps_flag : ℕ

-- `sent` is the log of the calls of `write` on the channel.
pub record H264Decoder (A : Type 0) : Type 0 where
  pub ch : Option ℕ
  pub args : Option (Args A)
  pub sent : List (ℕ × Signal)

abbrev pub sequence_header : ℕ
sequence_header = 0

abbrev pub avpacket : ℕ
avpacket = 1

abbrev pub end_of_sequence : ℕ
end_of_sequence = 2

-- `boost::asio::error::eof`.
abbrev pub eof : ℕ
eof = 2

-- `nalu_size = (nalu_size << 8) + data_offset[i]`, over the bytes of a prefix.
unfoldable pub big_endian : ℕ → List ℕ → ℕ
big_endian n [] = n
big_endian n (b ∷ bytes) = big_endian (n * 256 + b) bytes

unfoldable pub sum_sizes : List ℕ → ℕ
sum_sizes [] = 0
sum_sizes (n ∷ sizes) = n + 4 + sum_sizes sizes

-- The unit at the head and the bytes behind it, `k` being the bytes of a length. The loop ends before
-- a unit of no bytes, and then the assertion fails as bytes are left; a unit of 2 ^ 31 bytes or more
-- has a negative size.
unfoldable pub cut_unit : ℕ → List ℕ → Option (List ℕ × List ℕ)
unfolding big_endian
cut_unit k bytes =
    let nalu_size = big_endian 0 (take k bytes) in
    let left = drop k bytes in
    if nalu_size == 0
    then none
    else if leb k (length bytes) && (leb nalu_size (length left) && ltb nalu_size (2 ^ 31))
    then some (take nalu_size left, drop nalu_size left)
    else none

abbrev pub start_code : List ℕ
start_code = 0 ∷ 0 ∷ 0 ∷ 1 ∷ []

module _ {A : Type 0} where
  unfoldable pub new_decoder : H264Decoder A
  new_decoder = record { ch = none; args = none; sent = [] }

  unfoldable pub set_output : Option ℕ → H264Decoder A → H264Decoder A
  set_output c d = record d { ch = c }

  unfoldable pub on_frame : Signal → H264Decoder A → H264Decoder A
  on_frame signal d = elim d.ch [
    | none ↦ d
    | some c ↦ record d { sent = d.sent ++ (c, signal) ∷ [] }
  ]

-- The frame of a unit or of the parameter sets: `bytes` with the packet's times and flag.
abbrev pub video_frame : ℤ → ℤ → ℕ → List ℕ → Frame
video_frame timestamp cts keyframe bytes = record (new_frame bytes) {
  media = video;
  codec = h264;
  flag = keyframe;
  pts = timestamp +ℤ cts;
  dts = timestamp;
}

unfoldable pub unit_frame : ℤ → ℤ → ℕ → List ℕ → FrameBuffer
unit_frame timestamp cts keyframe bytes =
    fixed (video_frame timestamp cts keyframe (start_code ++ bytes))

module _ {A : Type 0} (lib : Library A) where
  unfoldable pub h264_sps_pps_size : A → ℕ
  unfolding sum_sizes
  h264_sps_pps_size avc = sum_sizes (lib.sps_bytes avc) + sum_sizes (lib.pps_bytes avc)

  -- The parameter sets as a frame; `none` where mpeg4_avc_to_nalu does not succeed.
  unfoldable pub parameter_sets : ℤ → ℤ → ℕ → A → Option FrameBuffer
  unfolding h264_sps_pps_size resize
  parameter_sets timestamp cts keyframe avc =
      let reserved = resize (h264_sps_pps_size avc) (video_frame timestamp cts keyframe []) in
      let (n, bytes) = lib.to_nalu avc reserved.payload in
      if ltb_ℤ (pos 0) n then some (fixed (record reserved { payload = bytes })) else none

  -- What comes before a unit's own frame: the parameter sets, before the first IDR unit. The inner
  -- `none` is the early return.
  unfoldable pub before_unit :
      ℤ → ℤ → ℕ → ℕ → Args A → H264Decoder A → Option (Args A × H264Decoder A)
  unfolding parameter_sets on_frame
  before_unit timestamp cts keyframe nalu_type args d =
      if nalu_type == 5 && args.sps_pps_flag == 0
      then elim (parameter_sets timestamp cts keyframe args.avc) [
        | none ↦ none
        | some f ↦
            let args' = record args { sps_pps_flag = 1 } in
            some (args', record (on_frame (frame f) d) { args = some args' })
      ]
      else some (args, d)

  -- The loop, on the bytes from `data_offset` on.
  unfoldable pub demuxer_loop :
      ℕ → ℤ → ℤ → ℕ → List ℕ → Args A → H264Decoder A → Option (H264Decoder A)
  unfolding unit_frame before_unit on_frame
  demuxer_loop fuel timestamp cts keyframe [] args d = some d
  demuxer_loop zero timestamp cts keyframe (b ∷ bytes) args d = none
  demuxer_loop (suc fuel) timestamp cts keyframe (b ∷ bytes) args d =
      elim (cut_unit (lib.nalu args.avc) (b ∷ bytes)) [
        | none ↦ none
        | some (unit, rest) ↦
            elim (before_unit timestamp cts keyframe (get_or unit 0 0 % 32) args d) [
              | none ↦ some d
              | some (args', d') ↦
                  demuxer_loop fuel timestamp cts keyframe rest args'
                    (on_frame (frame (unit_frame timestamp cts keyframe unit)) d')
            ]
      ]

  unfoldable pub demuxer_avpacket :
      List ℕ → ℤ → ℤ → ℕ → Args A → H264Decoder A → Option (H264Decoder A)
  unfolding demuxer_loop
  demuxer_avpacket bytes timestamp cts keyframe args d =
      demuxer_loop (length bytes) timestamp cts keyframe bytes args d

  unfoldable pub write_packet : VideoTag → FrameBuffer → H264Decoder A → Option (H264Decoder A)
  unfolding demuxer_avpacket on_frame
  write_packet tag f d =
      let bytes = drop tag.read (bytes_of f) in
      if tag.avpacket == sequence_header
      then some
          (record d { args = some (record { avc = lib.load bytes lib.zeroed; sps_pps_flag = 0 }) })
      else elim d.args [
        | none ↦ some d
        | some args ↦
            if tag.avpacket == end_of_sequence
            then some (on_frame (failed eof) d)
            else if tag.avpacket == avpacket
            then demuxer_avpacket bytes (pts f) tag.cts (if tag.keyframe == 1 then 1 else 0) args d
            else some d
      ]

  unfoldable pub write : Signal → H264Decoder A → Option (H264Decoder A)
  unfolding write_packet on_frame
  write (failed ec) d = some (on_frame (failed ec) d)
  write (frame f) d = elim (lib.read_tag (bytes_of f)) [
    | none ↦ some d
    | some tag ↦ write_packet tag f d
  ]
