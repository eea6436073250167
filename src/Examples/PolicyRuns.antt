-- ===== src/Examples/PolicyRuns.antt =====
-- Certificates, the rate limiter, interceptors and a directory on disk.
use shenron.Common.{
  ℕ, ◌+◌, ◌/◌, ◌≡◌, ◌≢◌, refl, true, false, none, some, List, [], ◌∷◌, Text, text, map, length,
  text_eq, nat_eq, text_beq,
}
use shenron.Error.{Result, ok}
use shenron.Session.{IpAddr, v4}
use shenron.Lines.{lines, trim, trim_start, is_whitespace}
use shenron.Auth.{from_bool}
use shenron.Auth.TrustedCa.{
  Certificate, user_cert, parse, check, trusted_ca_keys, parse_lines, parsed_line, unless_empty,
}
use shenron.Auth.TrustedCa.Listing.{AllParse, key_lines, parse-ok}
use shenron.Auth.TrustedCa.Login.{ca_only, Admits, Reach-Admits}
use shenron.Server.{ShenronServer, auth_openssh_certificate, finish_auth, consult, new_client}
use shenron.Server.Connection.{
  by_cert, Connection, attempt, connect, Reach, after_attempt, attempts, here, next,
}
use shenron.Middleware.Builtins.RateLimit.{
  KeyedLimiter, RateLimiter, from_quota, sweep_interval, per_minute, burst, non_zero,
}
use shenron.Middleware.Builtins.RateLimit.Sweeps.{
  made, by_minute, by_burst, check_all, check_all-sweeps,
}
use shenron.Server.Connection.Accepting.{LetIn}
use shenron.Examples.Values.{peer, exits}

-- A key is its line.
abbrev as_key : Text → Result Text Text
as_key line = ok line

abbrev authorities : Text
authorities = text "# authorities\n\nca\n"

authorities-parse : parse as_key (λ k. k) authorities ≡ ok (text "ca" ∷ [])
unfolding parse parse_lines parsed_line unless_empty lines trim trim_start is_whitespace
authorities-parse = refl

parse-ok_example :
    (keys : List Text) × AllParse as_key (λ k. k) (key_lines (lines authorities)) keys
    × ((text "ca" ∷ []) ≡ map (λ k. k) keys)
    × ((text "ca" ∷ []) ≢ [])
parse-ok_example = parse-ok as_key (λ k. k) authorities (text "ca" ∷ []) authorities-parse

abbrev goku_cert : Certificate Text
goku_cert = record {
  cert_type = user_cert;
  validate = λ fingerprints. true;
  valid_principals = text "goku" ∷ [];
  critical_options = [];
}

abbrev ca_server : ShenronServer ℕ (Certificate Text) ℕ
ca_server = record { handler = exits 0; auth = ca_only (text "ca" ∷ []); banner = none }

abbrev ca_login : Connection ℕ (Certificate Text) ℕ
ca_login =
    after_attempt (connect ca_server (some peer)) (text "goku") (by_cert goku_cert)
      (attempt (λ c. 0) (text "goku") (by_cert goku_cert) (connect ca_server (some peer)).handler)

ca-fresh : (connect ca_server (some peer)).authenticated ≡ false
unfolding connect
ca-fresh = refl

ca-authenticated : ca_login.authenticated ≡ true
unfolding connect attempt auth_openssh_certificate finish_auth consult new_client from_bool ca_only
    trusted_ca_keys check text_beq
ca-authenticated = refl

abbrev ca_way : Reach (λ c. 0) (connect ca_server (some peer)) ca_login
ca_way =
    next here
      (attempts (connect ca_server (some peer)) (text "goku") (by_cert goku_cert) ca-fresh tt)

Reach-Admits_example :
    (user : Text) × (cert : Certificate Text) × LetIn ca_way user (by_cert cert)
    × (ca_login.handler.user ≡ some user)
    × Admits (text "ca" ∷ []) user cert
Reach-Admits_example =
    Reach-Admits (λ c. 0) (text "ca" ∷ []) ca_server (some peer) refl ca_way ca-authenticated

-- A quota is its count, and a limiter the number of its checks.
abbrev lenient : KeyedLimiter ℕ ℕ
lenient = record {
  per_second = λ n. n;
  per_minute = λ n. n;
  per_hour = λ n. n;
  allow_burst = λ n quota. n;
  dashmap = λ quota. 0;
  retain_recent = λ g. 0;
  check_key = λ ip g. (g + 1, true);
}

abbrev bursting : RateLimiter ℕ (ℕ × ℕ)
bursting = record { quota = 5; limiter = (0, 0); checks = 0 }

bursting-made : made lenient (by_burst 5 (by_minute 10)) ≡ some bursting
unfolding made per_minute burst non_zero from_quota
bursting-made = refl

abbrev visits : List IpAddr
visits = v4 1 ∷ v4 2 ∷ v4 1 ∷ []

check_all-sweeps_example :
    (check_all lenient visits bursting).limiter.1 ≡ (length visits + 255) / sweep_interval
check_all-sweeps_example =
    check_all-sweeps lenient visits (by_burst 5 (by_minute 10)) bursting bursting-made
