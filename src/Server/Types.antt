-- ===== src/Server/Types.antt =====
-- The data of crates/mirum-server/src/daemon.rs: pushes, builds, requests and responses.
use mirum.Base.{ℕ, String, Bool, Option}
use mirum.Oci.Types.{Bytes}

pub record GithubRepository : Type 0 where
  pub full_name : String
  pub clone_url : String

pub record GithubPush : Type 0 where
  pub git_ref : String
  pub after : String
  pub repository : GithubRepository

-- The texts that the queries write into the column `status`.
pub data Status : Type 0 where
  queued running succeeded failed interrupted : Status

-- A row of the table `builds`, without its id. An exit code is that of a Unix process, from 0 to 255.
pub record Build : Type 0 where
  pub repository : String
  pub clone_url : String
  pub git_ref : String
  pub commit_sha : String
  pub status : Status
  pub exit_code : Option ℕ
  pub log : String

pub record Request : Type 0 where
  pub header : String → Option String
  pub body : Bytes

pub record Response : Type 0 where
  pub status : ℕ
  pub content_type : Option String
  pub location : Option String
  pub body : String

-- The code of other crates that the webhook calls: `hex::decode`, HMAC-SHA256 of `ring`, and the JSON
-- decoder of pushes.
pub record Crates : Type 0 where
  pub hex_decode : String → Option Bytes
  pub hmac_verify : String → Bytes → Bytes → Bool
  pub parse_push : Bytes → Option GithubPush
