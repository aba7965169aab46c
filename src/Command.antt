-- ===== src/Command.antt =====
-- src/command_processor_util.c and .h: the types and constants that its parts share.
pub mod Scan
pub mod Storage
pub mod Parse
pub mod Query
pub mod Numbers
pub mod Errors
pub mod Session
pub mod Frame
mod Tests
use nxdk_dyndxt.Base.{ℕ, ℤ, pos, negsuc}
use nxdk_dyndxt.Pool.{Ptr, null}

-- 'dxcp'
abbrev pub k_tag : ℕ
k_tag = 0x64786370

abbrev pub pcp_err_invalid_input : ℤ
pcp_err_invalid_input = negsuc 0

abbrev pub pcp_err_out_of_memory : ℤ
pcp_err_out_of_memory = negsuc 1

abbrev pub pcp_err_invalid_key : ℤ
pcp_err_invalid_key = negsuc 9

abbrev pub pcp_err_unterminated_quoted_key : ℤ
pcp_err_unterminated_quoted_key = negsuc 10

abbrev pub pcp_err_unterminated_escape : ℤ
pcp_err_unterminated_escape = negsuc 11

abbrev pub default_reserve_size : ℕ
default_reserve_size = 4

-- `struct CommandParameters`, a local of the callers. `entries` counts appended keys, so it is
-- not negative.
pub record CommandParameters : Type 0 where
  pub entries : ℕ
  pub keys : Ptr
  pub values : Ptr

-- `memset(result, 0, sizeof(CommandParameters))`
abbrev pub zeroed : CommandParameters
zeroed = record { entries = 0; keys = null; values = null }
