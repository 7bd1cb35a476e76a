-- ===== src/Demuxer/Media.antt =====
-- What the AAC decoder makes of a series of packets, and the demuxer of a stream's beginning and of an
-- error, rtmp_aac_decoder.cc and rtmp_demuxer.cc.
use simple_rtmp.Base.{
  ℕ, ◌%◌, ◌^◌, ◌≤◌, ◌≡◌, List, [], ◌∷◌, ◌++◌, Bool, true, false, if◌then◌else◌, Option, none, some,
  length, drop, replicate,
}
use simple_rtmp.Base.Int.{pos, ltb_ℤ}
use simple_rtmp.Codec.{audio, aac}
use simple_rtmp.Frame.{FrameBuffer, fixed, new_frame, bytes_of, pts, dts}
use simple_rtmp.Sink.{Signal, frame}
use simple_rtmp.Demuxer.Aac.{AudioTag, Aac, Library, AacDecoder, write}

-- A frame and the tag that the library reads of it.
pub record Tagged : Type 0 where
  pub tag : AudioTag
  pub buffer : FrameBuffer

unfoldable pub write_all :
    {B : Type 0} → Library B → List Tagged → AacDecoder B → Option (AacDecoder B)
unfolding write
write_all lib [] d = some d
write_all lib (t ∷ ts) d = elim (write lib (frame (t.buffer)) d) [
  | none ↦ none
  | some d' ↦ write_all lib ts d'
]

abbrev pub payload : Tagged → List ℕ
payload t = drop (t.tag.read) (bytes_of (t.buffer))

-- A packet of AAC data, not a configuration.
abbrev pub IsRaw : {B : Type 0} → Library B → Tagged → Type 0
IsRaw lib t = (lib.read_tag (bytes_of (t.buffer)) ≡ some (t.tag)) × (1 ≤ t.tag.avpacket)

-- The frame of a packet: an ADTS header for its length, and the packet.
abbrev pub adts_frame : (ℕ → List ℕ) → Tagged → FrameBuffer
adts_frame header t =
    fixed (record (new_frame (header (length (payload t) % 2 ^ 16) ++ payload t)) {
      media = audio;
      codec = aac;
      pts = pts (t.buffer);
      dts = dts (t.buffer);
    })

-- The frames of the packets whose sizes a header can tell, on a channel.
unfoldable pub adts_frames : (ℕ → Bool) → (ℕ → List ℕ) → ℕ → List Tagged → List (ℕ × Signal)
adts_frames fits header c [] = []
adts_frames fits header c (t ∷ ts) =
    if fits (length (payload t) % 2 ^ 16)
    then (c, frame (adts_frame header t)) ∷ adts_frames fits header c ts
    else adts_frames fits header c ts

-- The library writes a header of 7 bytes for the sizes that fit, into the 8 bytes that it is given, and
-- otherwise fails.
pub record HasHeaders {B : Type 0} (lib : Library B) (config : Aac B) (fits : ℕ → Bool)
    (header : ℕ → List ℕ) (x : ℕ) : Type 0 where
  pub saves :
      (n : ℕ) → fits n ≡ true → lib.adts_save config n (replicate 8 0) ≡ (pos 7, header n ++ x ∷ [])
  pub fails :
      (n : ℕ) → fits n ≡ false → ltb_ℤ (lib.adts_save config n (replicate 8 0)).0 (pos 7) ≡ true
  pub sized : (n : ℕ) → length (header n) ≡ 7
