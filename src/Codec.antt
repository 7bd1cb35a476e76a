-- ===== src/Codec.antt =====
-- The tags and codecs of rtmp_codec.h, and their names in rtmp_codec.cc.
use simple_rtmp.Base.{ℕ, ◌*◌, ◌==◌, if◌then◌else◌}
use Prim.Native.String.{String}

-- `enum rtmp_tag`.
abbrev pub script : ℕ
script = 0

abbrev pub video : ℕ
video = 1

abbrev pub audio : ℕ
audio = 2

-- `enum rtmp_codec`, of which the code uses these.
abbrev pub aac : ℕ
aac = 10 * 16

abbrev pub opus : ℕ
opus = 13 * 16

abbrev pub h264 : ℕ
h264 = 7

abbrev pub h265 : ℕ
h265 = 12

unfoldable pub rtmp_tag_to_str : ℕ → String
rtmp_tag_to_str tag =
    if tag == script
    then "script"
    else if tag == video
    then "video"
    else if tag == audio
    then "audio"
    else "unknown"

unfoldable pub rtmp_codec_to_str : ℕ → String
rtmp_codec_to_str codec =
    if codec == h264
    then "h264"
    else if codec == h265
    then "h265"
    else if codec == aac
    then "aac"
    else if codec == opus
    then "opus"
    else "unknown"
