-- ===== src/Exotel/Http.antt =====
-- What resty's Get brings back, and BuildBaseURL of internal/exotel/client.go.
use exotel_monitoring_platfo.Prelude.{
  ℕ, Bool, ◌&&◌, ◌++◌, Text, codes, is_empty, contains_char, if◌then◌else◌, leb,
}

-- The milliseconds that a request took, and its error's text or its status and body.
pub data Reply : Type 0 where
  broken : ℕ → Text → Reply
  answered : ℕ → ℕ → Text → Reply

-- resp.IsSuccess(), and isSuccessHTTP of internal/handlers/streams.go
unfoldable pub is_success : ℕ → Bool
is_success status = leb 200 status && leb status 299

-- the second argument is config.App.Exotel.BaseURL
unfoldable pub build_base_url : Text → Text → Text
build_base_url subdomain base_url =
    if is_empty subdomain
    then base_url
    else if contains_char b'.' subdomain
    then codes "https://" ++ subdomain
    else codes "https://" ++ (subdomain ++ codes ".exotel.com")
