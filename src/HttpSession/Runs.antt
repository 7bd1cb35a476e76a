-- ===== src/HttpSession/Runs.antt =====
-- Concrete targets, and the theorem at one.
use simple_rtmp.Base.{ℕ, ◌≡◌, refl, [], ◌∷◌, ◌++◌, Option, some, Bool, false}
use simple_rtmp.Rtsp.Parser.{Text}
use simple_rtmp.FlvSession.{channel_added, conn_started, new_session, start, dot_flv, slash_flv}
use simple_rtmp.HttpSession.{flv_session, unanswered, route}
use simple_rtmp.HttpSession.Targets.{path_of, route-sink}

-- live, a
abbrev live : Text
live = 108 ∷ 105 ∷ 118 ∷ 101 ∷ []

abbrev cam : Text
cam = 99 ∷ 97 ∷ 109 ∷ []

abbrev none_known : Text → Bool
none_known target = false

abbrev one_sink : Text → Option ℕ
one_sink id = some 6

route-sink_example :
    (route none_known (path_of live cam ++ dot_flv) ≡ flv_session)
    × ((start one_sink (new_session (path_of live cam ++ dot_flv))).outputs
        ≡ conn_started ∷ (channel_added 6 ∷ []))
    × ((start one_sink (new_session (path_of live cam ++ dot_flv))).sink ≡ some 6)
route-sink_example =
    route-sink none_known one_sink live cam 6 (refl, (refl, (refl, (refl, tt))))
      (refl, (refl, (refl, tt))) refl refl

-- The target that the code's comment names is left without an answer.
flv_path_unanswered : route none_known (slash_flv ++ path_of live cam) ≡ unanswered
unfolding route
flv_path_unanswered = refl
