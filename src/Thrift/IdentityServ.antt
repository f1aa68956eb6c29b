-- ===== src/Thrift/IdentityServ.antt =====
-- thrift/IdentityServ.cpp.
pub mod GetIdentity
pub mod StoreMessage
use thirft_proxy.Prelude.{ℕ}
