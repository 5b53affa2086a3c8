-- ===== src/Server/Config.antt =====
-- crates/mirum-server/src/config.rs, the validation that `garde` derives from its attributes, and the
-- use of the settings in `harden` and `restrict_hosts` of daemon.rs. A size or a duration is its
-- number, an address and an authority its text.
pub mod Harden
use mirum.Base.{
  ℕ, zero, suc, ◌*◌, String, ◌<>◌, Bool, true, false, Option, none, some, List, [], ◌∷◌, ◌++◌,
  Result, ok, err, ◌>>=◌, ◌==◌, leb, if◌then◌else◌,
}

-- The code of `dimidiumlabs_config` that the validation dives into, and the parser of authorities.
pub record Quantities : Type 0 where
  pub is_duration : ℕ → Bool
  -- the least size, and the bits of the type
  pub is_size : ℕ → ℕ → ℕ → Bool
  pub is_filled : String → Bool
  pub is_authority : String → Bool

pub record ServerSettings : Type 0 where
  pub addr : String
  pub hostnames : List String
  pub header_read_timeout : ℕ
  pub http1_max_buffer_bytes : ℕ
  pub http2_max_concurrent_streams : ℕ
  pub http2_max_header_list_bytes : ℕ
  pub request_body_idle_timeout : ℕ
  pub request_body_max_bytes : ℕ
  pub trusted_proxies : List String
  pub compression_min_bytes : ℕ
  pub compression_level : ℕ
  pub max_concurrent_requests : ℕ
  pub max_queued_requests : ℕ
  pub admission_wait : ℕ
  pub shutdown_timeout : ℕ

-- Durations in seconds, sizes in bytes.
abbrev pub default_server : ServerSettings
default_server = record {
  addr = "127.0.0.1:8080";
  hostnames = [];
  header_read_timeout = 10;
  http1_max_buffer_bytes = 32 * 1024;
  http2_max_concurrent_streams = 64;
  http2_max_header_list_bytes = 16 * 1024;
  request_body_idle_timeout = 60;
  request_body_max_bytes = 1024 * 1024 * 1024;
  trusted_proxies = [];
  compression_min_bytes = 128;
  compression_level = 5;
  max_concurrent_requests = 64;
  max_queued_requests = 128;
  admission_wait = 1;
  shutdown_timeout = 25;
}

pub record Database : Type 0 where
  pub url : String
  pub max_connections : ℕ
  pub connect_timeout_seconds : ℕ

abbrev pub default_max_connections : ℕ
default_max_connections = 10

abbrev pub default_connect_timeout_seconds : ℕ
default_connect_timeout_seconds = 5

pub record Config : Type 0 where
  pub server : ServerSettings
  pub secret : String
  pub database : Database

-- A field that does not hold is reported by its path.
unfoldable pub report : Bool → String → List String → List String
report true path rest = rest
report false path rest = path ∷ rest

module _ (Q : Quantities) where
  unfoldable pub validate_server : ServerSettings → List String
  validate_server s = report (Q.is_duration s.header_read_timeout) "server.header_read_timeout" (
      report (Q.is_size 8192 64 s.http1_max_buffer_bytes) "server.http1_max_buffer_bytes" (
        report (leb 1 s.http2_max_concurrent_streams) "server.http2_max_concurrent_streams" (
          report (Q.is_size 1 32 s.http2_max_header_list_bytes) "server.http2_max_header_list_bytes"
            (report (Q.is_duration s.request_body_idle_timeout) "server.request_body_idle_timeout" (
              report (Q.is_size 1 64 s.request_body_max_bytes) "server.request_body_max_bytes" (
                report (Q.is_size 1 16 s.compression_min_bytes) "server.compression_min_bytes" (
                  report (leb s.compression_level 22) "server.compression_level" (
                    report (leb 1 s.max_concurrent_requests) "server.max_concurrent_requests" (
                      report (leb 1 s.max_queued_requests) "server.max_queued_requests" (
                        report (Q.is_duration s.admission_wait) "server.admission_wait" (
                          report (Q.is_duration s.shutdown_timeout) "server.shutdown_timeout"
                            [])))))))))))

  unfoldable pub validate_database : Database → List String
  validate_database d = report (Q.is_filled d.url) "database.url" (
      report (leb 1 d.max_connections) "database.max_connections"
        (report (leb 1 d.connect_timeout_seconds) "database.connect_timeout_seconds" []))

  unfoldable pub validate : Config → List String
  validate c = validate_server c.server ++ validate_database c.database

  unfoldable pub deserialize_authorities : List String → Result String (List String)
  deserialize_authorities [] = ok []
  deserialize_authorities (a ∷ l) =
      let rest = deserialize_authorities l in
      if Q.is_authority a
      then (rest >>= λ others. ok (a ∷ others))
      else err ("invalid HTTP authority '" <> a <> "'")

-- What the layers and the transport are made of.
pub record Hardened : Type 0 where
  pub body_limit : ℕ
  pub body_idle : ℕ
  pub concurrent : ℕ
  pub admission_wait : ℕ
  pub queued : ℕ
  pub proxies : List String
  pub header_read : ℕ
  pub http1_buffer : ℕ
  pub http2_streams : ℕ
  pub http2_header_list : ℕ

-- `NonZero…::new(n).expect(…)`; `none` is a panic.
abbrev pub non_zero : ℕ → Option ℕ
non_zero zero = none
non_zero (suc n) = some (suc n)

abbrev pub hardened : ServerSettings → Option ℕ → Option ℕ → Option ℕ → Option ℕ → Option Hardened
hardened s (some concurrent) (some queued) (some streams) (some list) = some record {
  body_limit = s.request_body_max_bytes;
  body_idle = s.request_body_idle_timeout;
  concurrent = concurrent;
  admission_wait = s.admission_wait;
  queued = queued;
  proxies = s.trusted_proxies;
  header_read = s.header_read_timeout;
  http1_buffer = s.http1_max_buffer_bytes;
  http2_streams = streams;
  http2_header_list = list;
}
hardened s _ _ _ _ = none

-- The policy error of the transport, which `harden` passes on, is left out.
unfoldable pub harden : ServerSettings → Option Hardened
harden s =
    hardened s (non_zero s.max_concurrent_requests) (non_zero s.max_queued_requests)
      (non_zero s.http2_max_concurrent_streams) (non_zero s.http2_max_header_list_bytes)
