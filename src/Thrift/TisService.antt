-- ===== src/Thrift/TisService.antt =====
-- thrift/TisService.cpp.
pub mod Ping
pub mod ReloadModel
pub mod Check
use thirft_proxy.Prelude.{ℕ}
