-- ===== src/HttpSession/Targets.antt =====
-- Which sink a request's target leads to, http_session.cc and start in flv_forward_session.cc.
use simple_rtmp.Base.{
  ℕ, ◌-◌, ◌≤◌, ◌≡◌, refl, ap, ◌∙◌, [], ◌∷◌, ◌++◌, Bool, true, false, Option, some, length, drop,
  ◌==◌, arith, length-append, drop-length_append, All,
}
use simple_rtmp.Rtsp.Parser.{Text}
use simple_rtmp.RtspSession.Requests.{split, ends_with}
use simple_rtmp.FlvSession.{
  channel_added, conn_started, new_session, start, find_sink, make_session_id_suffix, last_two,
  dot_flv, rtmp_prefix,
}
use simple_rtmp.FlvSession.Tags.{same_text_refl, take-first}
use simple_rtmp.HttpSession.{flv_session, route}

-- A text without a slash.
abbrev pub IsPiece : Text → Type 0
IsPiece = All (λ (c : ℕ). (c == 47) ≡ false)

split-slash : (piece rest : Text) → IsPiece piece → split (piece ++ 47 ∷ rest) ≡ piece ∷ split rest
unfolding split
split-slash [] rest v = refl
split-slash (c ∷ piece) rest (v, vs) = ground (arith, v, split-slash piece rest vs)

split-piece : (piece : Text) → IsPiece piece → split piece ≡ piece ∷ []
unfolding split
split-piece [] v = refl
split-piece (c ∷ piece) (v, vs) = ground (arith, v, split-piece piece vs)

ends_with-append : (xs suffix : Text) → ends_with (xs ++ suffix) suffix ≡ true
ends_with-append xs suffix =
    let lengths : length (xs ++ suffix) - length suffix ≡ length xs =
      omega (arith, length-append xs suffix) in
    let enough : length suffix ≤ length (xs ++ suffix) = omega (arith, length-append xs suffix) in
    ground (
      arith,
      enough,
      ap (λ n. drop n (xs ++ suffix)) lengths ∙ drop-length_append xs suffix,
      same_text_refl suffix,
    )

-- `/app/stream`.
abbrev pub path_of : Text → Text → Text
path_of app stream = 47 ∷ (app ++ 47 ∷ stream)

suffix-id :
    (app stream : Text)
    → IsPiece app
    → IsPiece stream
    → make_session_id_suffix (path_of app stream ++ dot_flv) ≡ rtmp_prefix ++ (app ++ 95 ∷ stream)
unfolding make_session_id_suffix last_two split
suffix-id app stream a b =
    let target = path_of app stream ++ dot_flv in
    let lengths : length (path_of app stream) ≡ length target - 4 =
      omega (arith, length-append (path_of app stream) dot_flv) in
    let stripped = take-first (length target - 4) (path_of app stream) dot_flv lengths in
    let pieces : split (path_of app stream) ≡ [] ∷ (app ∷ (stream ∷ [])) =
      ap (◌∷◌ []) (split-slash app stream a ∙ ap (◌∷◌ app) (split-piece stream b)) in
    ground (arith, ap split stripped ∙ pieces)

-- A request for `/app/stream.flv`, for which no callback is registered, opens an FLV session, and this
-- looks for the sink `rtmp_app_stream`, the one that an RTMP publisher of the stream registers: where
-- it is there the session becomes a channel of it.
pub route-sink :
    (known : Text → Bool) (get : Text → Option ℕ) (app stream : Text) (k : ℕ)
    → IsPiece app
    → IsPiece stream
    → known (path_of app stream ++ dot_flv) ≡ false
    → get (rtmp_prefix ++ (app ++ 95 ∷ stream)) ≡ some k
    → (route known (path_of app stream ++ dot_flv) ≡ flv_session)
      × ((start get (new_session (path_of app stream ++ dot_flv))).outputs
          ≡ conn_started ∷ (channel_added k ∷ []))
      × ((start get (new_session (path_of app stream ++ dot_flv))).sink ≡ some k)
unfolding route start find_sink new_session
route-sink known get app stream k a b free found =
    let ends = ends_with-append (path_of app stream) dot_flv in
    let id = ap get (suffix-id app stream a b) ∙ found in
    (ground (arith, free, ends), ground (arith, ends, id), ground (arith, ends, id))
