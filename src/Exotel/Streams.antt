-- ===== src/Exotel/Streams.antt =====
-- ActiveStreams and MaxAllowedStreams of internal/exotel/client.go.
use exotel_monitoring_platfo.Prelude.{ℤ, pos, ◌+ℤ◌, List, [], ◌∷◌}
use exotel_monitoring_platfo.Exotel.Types.{ActiveStreamsEntry}

add_streams : ℤ → List ActiveStreamsEntry → ℤ
add_streams total [] = total
add_streams total (s ∷ ss) = add_streams (total +ℤ s.active_stream_count) ss

unfoldable pub active_streams : List ActiveStreamsEntry → ℤ
unfolding add_streams
active_streams ss = add_streams (pos 0) ss

unfoldable pub max_allowed_streams : List ActiveStreamsEntry → ℤ
max_allowed_streams [] = pos 0
max_allowed_streams (s ∷ ss) = s.throttle_limit
