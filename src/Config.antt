-- ===== src/Config.antt =====
-- config.h: the configuration of a node. A group that is not there has no super leaves. The family of
-- an address is AF_INET everywhere, and is left out.
pub mod Parse
pub mod Place
pub mod RoundTrip
use rcanopus_membership.Prelude.{ℕ, List, none, some, length, get_elem?}

-- struct sockaddr_in, its port in network order.
pub record SockaddrIn : Type 0 where
  pub sin_port : ℕ
  pub sin_addr : ℕ

pub record BgInfo : Type 0 where
  pub failure : ℕ
  pub addr : List SockaddrIn

pub record Config : Type 0 where
  pub rg_bg_info : List BgInfo
  pub bg_id : ℕ
  pub sl_id : ℕ
  pub global_failures : ℕ
  pub request_per_sl_per_second : ℕ

-- numBG, numSL and getF.
unfoldable pub num_bg : Config → ℕ
num_bg c = length c.rg_bg_info

unfoldable pub num_sl : Config → ℕ → ℕ
num_sl c bg = elim (get_elem? c.rg_bg_info bg) [ none ↦ 0 | some info ↦ length info.addr ]

unfoldable pub get_f : Config → ℕ → ℕ
get_f c bg = elim (get_elem? c.rg_bg_info bg) [ none ↦ 0 | some info ↦ info.failure ]
