-- ===== src/PlaySession/Late.antt =====
-- A player who comes late, from the RTMP sink and its H.264 encoder, rtmp_sink.cc and
-- rtmp_h264_encoder.cc, over the session's channel, rtmp_forward_session.cc, to the chunks of
-- rtmp_server_context.cc, and from there up again as a receiver reads them.
use simple_rtmp.Base.{
  ℕ, ◌+◌, ◌<◌, ◌≡◌, refl, sym, ap, ◌∙◌, List, [], ◌∷◌, ◌++◌, map, true, some, length, arith, All,
}
use simple_rtmp.Frame.{FrameBuffer, bytes_of, base, size}
use simple_rtmp.Sink.{Signal, frame}
use simple_rtmp.Sink.Rtmp.{safe_add_channel}
use simple_rtmp.Sink.Rtmp.Gop.{from_last_key}
use simple_rtmp.Sink.Rtmp.Join.{received}
use simple_rtmp.RtmpEncoder.H264.{H264Encoder}
use simple_rtmp.RtmpEncoder.H264 as H264
use simple_rtmp.RtmpEncoder.Tags.{
  kept_of, kept_next, kept_all, AreConverted, IsConverted, IsFirst, config_frame, units_frame,
  tags_of, all_tags,
}
use simple_rtmp.RtmpEncoder.Relay.{IsVideo, IsEncoder, both_codecs, given, relay-late}
use simple_rtmp.Chunk.{Header}
use simple_rtmp.Chunk.Receiver.{Stream, message_of}
use simple_rtmp.Chunk.Stream.{hear_all, InTune}
use simple_rtmp.Server.{Library}
use mathlib.Core.List.{map-append}
use simple_rtmp.PlaySession.{written, PlaySession, channel_outs}
use simple_rtmp.PlaySession.Message.{
  header_of, IsMedia, AreMessages, all_sent, headers, IsNumbered, Sending,
}
use simple_rtmp.PlaySession.Deliver.{channel_outs-heard}

All-append :
    (P : FrameBuffer → Type 0) (fs gs : List FrameBuffer) → All P fs → All P gs → All P (fs ++ gs)
All-append P [] gs ps qs = qs
All-append P (f ∷ fs) gs (p, ps) qs = (p, All-append P fs gs ps qs)

All-from_last_key :
    (P : FrameBuffer → Type 0) (fs : List FrameBuffer) → All P fs → All P (from_last_key fs)
unfolding from_last_key
All-from_last_key P [] ps = tt
All-from_last_key P (f ∷ fs) (p, ps) = ground (arith, p, ps, All-from_last_key P fs ps)

-- A configuration, or the units of a frame, that fit a message with the tag in front.
abbrev pub IsSmall : List ℕ → Type 0
IsSmall bytes = length bytes + 5 < 0xFFFFFF

config_frame-IsMedia :
    (f : FrameBuffer) (config : List ℕ) → IsSmall config → IsMedia (config_frame f config)
unfolding bytes_of base size
config_frame-IsMedia f config small = record {
  kind = omega arith;
  some_bytes = omega arith;
  sized = refl;
  fits = omega arith;
}

units_frame-IsMedia :
    (vcl : ℕ) (f : FrameBuffer) (units : List ℕ) → IsSmall units → IsMedia (units_frame vcl f units)
unfolding bytes_of base size
units_frame-IsMedia vcl f units small = record {
  kind = omega arith;
  some_bytes = omega arith;
  sized = refl;
  fits = omega arith;
}

module _ {K : Type 0} (lib : H264.Library K) (c stray : ℕ) (slices : FrameBuffer → ℕ)
    (units : FrameBuffer → List ℕ) where
  abbrev tags : List FrameBuffer → List FrameBuffer
  tags fs = all_tags lib c slices units fs

  tags-IsMedia : (fs : List FrameBuffer) → All (λ f. IsSmall (units f)) fs → All IsMedia (tags fs)
  unfolding all_tags tags_of
  tags-IsMedia [] smalls = tt
  tags-IsMedia (f ∷ fs) (small, smalls) =
      ground (arith, units_frame-IsMedia (slices f) f (units f) small, tags-IsMedia fs smalls)

  -- What a channel that comes between two series of frames gets.
  abbrev pub late_frames :
      FrameBuffer → List FrameBuffer → List FrameBuffer → List ℕ → List FrameBuffer
  late_frames f before after config =
      config_frame f config ∷ (from_last_key (tags (f ∷ before)) ++ tags after)

  late_frames-IsMedia :
      (f : FrameBuffer) (before after : List FrameBuffer) (config : List ℕ)
      → IsSmall config
      → All (λ g. IsSmall (units g)) (f ∷ before)
      → All (λ g. IsSmall (units g)) after
      → All IsMedia (late_frames f before after config)
  late_frames-IsMedia f before after config small smalls others = (
    config_frame-IsMedia f config small,
    All-append IsMedia (from_last_key (tags (f ∷ before))) (tags after)
        (All-from_last_key IsMedia (tags (f ∷ before)) (tags-IsMedia (f ∷ before) smalls))
        (tags-IsMedia after others),
  )

  module _ {E : Type 0} (held : H264Encoder K → E) (new_aac : E)
      (encode : E → Signal → E × List Signal) (server : Library) (numbered : IsNumbered server)
      (n : ℕ) where
    -- A new RTMP sink that has been told of H.264 and AAC is given video frames, of which the first one
    -- brings the parameter sets and the others keep them, and after some of them the channel of a session
    -- joins, whose connection is open and whose player wants both media. What this channel is written
    -- makes the session send a series of messages: of the configuration, then of the tags of the frames
    -- since the last key frame before the channel came, and then of the tags of the frames that follow,
    -- each in chunks of which all but the last are full, behind chunk headers; a frame has one tag if the
    -- library finds a slice of a picture in it, and none otherwise. A receiver that agrees with the
    -- session's context at first reads of these headers the chunk streams, converted times, sizes, kinds
    -- and the stream's id. With what it has kept of the frames before, the library converts each frame to
    -- its units, and it saves the sets of the first; each kind has its chunk stream and slot, and the
    -- configuration and each frame's units have with a tag's 5 bytes fewer than 0xFFFFFF bytes.
    pub channel_outs-relay :
        (f : FrameBuffer) (before after : List FrameBuffer) (config : List ℕ) (ch : ℕ)
        → (s : PlaySession) (streams : ℕ → Stream) → IsEncoder lib held encode
        → IsConverted lib c slices units (kept_of (H264.new_encoder lib)) f
        → IsFirst lib c slices units (kept_of (H264.new_encoder lib)) f config
        → AreConverted lib c slices units (kept_next lib (kept_of (H264.new_encoder lib)) f) before
        → AreConverted lib c slices units
            (kept_all lib (kept_of (H264.new_encoder lib)) (f ∷ before))
            after
        → All IsVideo (f ∷ before)
        → All IsVideo after
        → IsSmall config
        → All (λ g. IsSmall (units g)) (f ∷ before)
        → All (λ g. IsSmall (units g)) after
        → Sending server s.ctx
        → s.conn ≡ true
        → InTune s.ctx.out_packets streams
        → let feed = given lib c stray slices units held new_aac encode in
          let begins = both_codecs lib c stray slices units held new_aac encode in
          let frames = late_frames f before after config in
          (s' : PlaySession) × (ms : List (Header × List FrameBuffer)) × (channel_outs server n
              (received ch (feed after (safe_add_channel ch (feed (f ∷ before) begins))).sent)
              s
            ≡ some s')
          × (s'.outputs ≡ s.outputs ++ map written (all_sent ms))
          × AreMessages server.writers s.ctx.out_chunk_size frames ms
          × (hear_all streams (headers ms)
              ≡ map message_of (map (header_of server s.ctx.stream_id) frames))
    channel_outs-relay f before after config ch s streams agrees v first vs ws videos pictured small
          smalls others sending open_conn tuned =
        let frames = late_frames f before after config in
        let (s', ms, q, outs, messages, heard) =
          channel_outs-heard server numbered n frames s streams
            (late_frames-IsMedia f before after config small smalls others) sending open_conn
            tuned in
        let relayed =
          relay-late lib c stray slices units held new_aac encode f before after config ch agrees v
            first vs ws videos pictured in
        let as_frames =
          ap (◌∷◌ (frame (config_frame f config)))
            (sym (map-append frame (from_last_key (tags (f ∷ before))) (tags after))) in
        (
          s',
          ms,
          ap (λ signals. channel_outs server n signals s) (relayed ∙ as_frames) ∙ q,
          outs,
          messages,
          heard,
        )
